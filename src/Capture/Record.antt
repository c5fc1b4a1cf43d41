-- ===== src/Capture/Record.antt =====
-- What `record` of scripts/capture-gpo/main.go makes of an object.
use opengpm.Base.{
  List, [], ◌∷◌, ◌++◌, map, ◌≡◌, ◌≢◌, ◌⊎◌, inl, inr, refl, ap, ◌∙◌, All, Bool-cases, none, some,
  arith,
}
use opengpm.Text.{Bytes, codes, equal, equal_iff, equal_self}
use opengpm.Capture.{
  is_binary, EntryAttribute, LdapEntry, Recorded, one, several, Entry, recorded, record_value,
  record_all, record_entry, find,
}

-- The attributes whose values are bytes.
abbrev pub IsBinary : Bytes → Type 0
IsBinary name = (name ≡ codes "nTSecurityDescriptor") ⊎ (name ≡ codes "objectGUID")

-- How a value is written: its bytes in base64 for these attributes, and else its text.
pub data Writes (base64 : Bytes → Bytes) (name : Bytes) (value : Bytes × Bytes)
    : Bytes → Type 0 where
  as_base64 : IsBinary name → Writes base64 name value (base64 value.1)
  as_text : ¬ IsBinary name → Writes base64 name value value.0

abbrev pub WritesAll : (Bytes → Bytes) → Bytes → List (Bytes × Bytes) → List Bytes → Type 0
WritesAll base64 name [] [] = Unit
WritesAll base64 name [] (s ∷ ss) = ⊥
WritesAll base64 name (v ∷ vs) [] = ⊥
WritesAll base64 name (v ∷ vs) (s ∷ ss) = Writes base64 name v s × WritesAll base64 name vs ss

-- A single value is a string, any other number of them is a list.
pub data Holds (base64 : Bytes → Bytes) (a : EntryAttribute) : Recorded → Type 0 where
  a_string : (s : Bytes) → WritesAll base64 a.name a.values (s ∷ []) → Holds base64 a (one s)
  no_strings : WritesAll base64 a.name a.values [] → Holds base64 a (several [])
  strings :
      (s t : Bytes) (ss : List Bytes)
      → WritesAll base64 a.name a.values (s ∷ t ∷ ss)
      → Holds base64 a (several (s ∷ t ∷ ss))

-- The DN of the object; under the name of an attribute, its last values; and no other name.
pub record IsRecord (base64 : Bytes → Bytes) (ent : LdapEntry) (e : Entry) : Type 0 where
  pub same_dn : e.dn ≡ ent.dn
  pub each :
      (front behind : List EntryAttribute) (a : EntryAttribute)
      → ent.attributes ≡ front ++ a ∷ behind
      → All (λ b. b.name ≢ a.name) behind
      → (r : Recorded) × (find a.name e.attributes ≡ some r) × Holds base64 a r
  pub no_other :
      (name : Bytes) → All (λ b. b.name ≢ name) ent.attributes → find name e.attributes ≡ none

module _ (base64 : Bytes → Bytes) where
  record_value-Writes :
      (name : Bytes) (v : Bytes × Bytes) → Writes base64 name v (record_value base64 name v)
  unfolding record_value is_binary
  record_value-Writes name (text, bytes) =
      let sd = equal_iff name (codes "nTSecurityDescriptor") in
      let guid = equal_iff name (codes "objectGUID") in
      elim (Bool-cases (equal name (codes "nTSecurityDescriptor"))) [
        | inl e ↦ rw e (as_base64 (inl (sd.0 e)))
        | inr e ↦ elim (Bool-cases (equal name (codes "objectGUID"))) [
          | inl f ↦ rw (e, f) (as_base64 (inr (guid.0 f)))
          | inr f ↦
              rw (e, f)
                (as_text
                  (λ binary. elim binary [ inl b ↦ cc (e, sd.1 b) | inr b ↦ cc (f, guid.1 b) ]))
        ]
      ]

  map-WritesAll :
      (name : Bytes) (vs : List (Bytes × Bytes))
      → WritesAll base64 name vs (map (record_value base64 name) vs)
  map-WritesAll name [] = tt
  map-WritesAll name (v ∷ vs) = (record_value-Writes name v, map-WritesAll name vs)

  recorded-Holds :
      (a : EntryAttribute) (ss : List Bytes)
      → WritesAll base64 a.name a.values ss
      → Holds base64 a (recorded ss)
  unfolding recorded
  recorded-Holds a [] h = no_strings h
  recorded-Holds a (s ∷ []) h = a_string s h
  recorded-Holds a (s ∷ t ∷ ss) h = strings s t ss h

  find-record_all :
      (name : Bytes) (attrs : List EntryAttribute) (out : List (Bytes × Recorded))
      → All (λ b. b.name ≢ name) attrs
      → find name (record_all base64 attrs out) ≡ find name out
  unfolding find record_all
  find-record_all name [] out h = refl
  find-record_all name (a ∷ attrs) out (other, h) =
      find-record_all name attrs _ h ∙ ground (arith, equal_iff a.name name)

  record_all-append :
      (front rest : List EntryAttribute) (out : List (Bytes × Recorded))
      → record_all base64 (front ++ rest) out ≡ record_all base64 rest (record_all base64 front out)
  unfolding record_all
  record_all-append [] rest out = refl
  record_all-append (a ∷ front) rest out = record_all-append front rest _

  pub record_entry-IsRecord : (ent : LdapEntry) → IsRecord base64 ent (record_entry base64 ent)
  unfolding record_entry record_all find
  record_entry-IsRecord ent = record {
    same_dn = refl;
    each = λ front behind a splits later. (
      recorded (map (record_value base64 a.name) a.values),
      ap (λ l. find a.name (record_all base64 l [])) splits
          ∙ ap (find a.name) (record_all-append front (a ∷ behind) [])
          ∙ find-record_all a.name behind
              ((a.name, recorded (map (record_value base64 a.name) a.values))
                ∷ record_all base64 front [])
              later
          ∙ rw (equal_self a.name) refl,
      recorded-Holds a (map (record_value base64 a.name) a.values) (map-WritesAll a.name a.values),
    );
    no_other = λ name absent. find-record_all name ent.attributes [] absent;
  }
