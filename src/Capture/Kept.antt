-- ===== src/Capture/Kept.antt =====
-- What the loop of `run` in scripts/capture-gpo/main.go keeps of what the search found.
use opengpm.Base.{List, [], ◌∷◌, ◌++◌, ◌≡◌, ◌≢◌, ap, inl, inr, Bool-cases, drop}
use opengpm.Text.{Bytes, codes}
use opengpm.Text.Search.{has_prefix, has_prefix-splits, has_prefix-append}
use opengpm.Capture.Record.{IsRecord, record_entry-IsRecord}
use opengpm.Capture.{LdapEntry, Entry, oracle_gplink_prefix, keep}

-- What is written of what the search found, in its order: a record of each object whose display name
-- does not start with `oracle-gplink-`.
pub data Sifted (base64 : Bytes → Bytes) (display_name : LdapEntry → Bytes)
    : List LdapEntry → List Entry → Type 0 where
  nothing : Sifted base64 display_name [] []
  scaffolding :
      {ent : LdapEntry} {found : List LdapEntry} {es : List Entry} (rest : Bytes)
      → display_name ent ≡ codes "oracle-gplink-" ++ rest
      → Sifted base64 display_name found es
      → Sifted base64 display_name (ent ∷ found) es
  object :
      {ent : LdapEntry} {found : List LdapEntry} {e : Entry} {es : List Entry}
      → ((rest : Bytes) → display_name ent ≢ codes "oracle-gplink-" ++ rest)
      → IsRecord base64 ent e
      → Sifted base64 display_name found es
      → Sifted base64 display_name (ent ∷ found) (e ∷ es)

pub keep-Sifted :
    (base64 : Bytes → Bytes) (display_name : LdapEntry → Bytes) (found : List LdapEntry)
    → Sifted base64 display_name found (keep base64 display_name found)
unfolding keep
keep-Sifted base64 display_name [] = nothing
keep-Sifted base64 display_name (ent ∷ found) =
    let kept = keep-Sifted base64 display_name found in
    elim (Bool-cases (has_prefix (display_name ent) oracle_gplink_prefix)) [
      | inl e ↦ rw e (
          scaffolding (drop 14 (display_name ent))
            (has_prefix-splits (display_name ent) oracle_gplink_prefix e) kept)
      | inr e ↦ rw e (
          object
            (λ rest spelled. absurd (
              cc (
                e,
                ap (λ s. has_prefix s oracle_gplink_prefix) spelled,
                has_prefix-append oracle_gplink_prefix rest,
              )))
            (record_entry-IsRecord base64 ent) kept)
    ]
