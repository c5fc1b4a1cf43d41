-- ===== src/Tests/ReplicaTests.antt =====
-- An LDAP connection, and an SMB session for the host that it reports.
use opengpm.Base.{ℕ, [], ◌≡◌, refl, some, Result, ok, All}
use opengpm.Text.{codes}
use opengpm.Text.Fields.{join_host_port}
use opengpm.Transport.Ldapx as ldapx
use opengpm.Transport.Ldapx.{Conn, conn_dc, dial}
use opengpm.Transport.Smbx.Session.{SmbDial, IsPinnedDial, start_session}
use opengpm.Transport.Smbx.Client.Mounts.{IsPinned}
use opengpm.Transport.Replica.{one_replica}
use opengpm.Tests.LdapTests as ldap_tests
use opengpm.Tests.SmbTests.{server, dc}
use opengpm.Tests.ThreadTests.{closed_under, closed_under_reached}

abbrev cfg : ldapx.Config Unit
cfg = record { dc = dc; krb = some tt; bind_dn = []; password = []; ca_cert = codes "ca.pem" }

abbrev connected : Conn Unit
connected = record { dc = dc; conn = tt }

-- The handle of the session is a number.
abbrev accepts : SmbDial Unit → Result ℕ ℕ
accepts d = ok 8

connects : (dial ldap_tests.server cfg).result ≡ ok connected
unfolding dial join_host_port
connects = refl

starts :
    (start_session accepts (record { dc = conn_dc connected; krb = some tt })).result ≡ ok (dc, 8)
unfolding start_session conn_dc
starts = refl

one_replica_example :
    All
      (IsPinnedDial dc (some tt))
      (start_session accepts (record { dc = conn_dc connected; krb = some tt })).dials
    × All (IsPinned dc) closed_under.client.calls
one_replica_example =
    one_replica ldap_tests.server server accepts cfg (some tt) {c = connected} {at = dc} {s = 8}
      connects starts closed_under_reached
