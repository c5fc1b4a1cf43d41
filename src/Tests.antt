-- ===== src/Tests.antt =====
-- Runs of the model on concrete inputs, and the theorems at inputs that meet their hypotheses.
mod GpLinkTests
mod ModelTests
mod DiscoverTests
mod WalkTests
mod OrderTests
mod GptTests
mod UncTests
mod KrbTests
mod LdapTests
mod SmbTests
mod CaptureTests
mod RunTests
mod ThreadTests
mod ReplicaTests
mod FstestTests
