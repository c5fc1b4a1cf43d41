-- ===== src/Directory/GpLink/Grammar.antt =====
-- The gPLink attribute as a grammar, and `ParseGPLink` against it.
use mathlib.Core.Path.{subst}
use opengpm.Base.{
  ==_iff, ◌==◌, ℕ, zero, suc, ◌≤◌, List, [], ◌∷◌, ◌++◌, reverse, ◌≡◌, inl, inr, ◌↔◌, refl, sym, ap,
  ◌∙◌, Option, none, some, Option-cases, Bool-cases, ok, ◌>>=◌, both_ok, arith, length, take, drop,
  append_assoc, append-nil, length-append,
}
use opengpm.Text.{Bytes, Lacks}
use opengpm.Text.Search.{index_byte, index_byte-some, index_byte-append, take_before, drop_past}
use opengpm.Text.Space.{trim_space}
use opengpm.Directory.GpLink.{
  starts_entry, parse_gplink_entry, parse_next, parse_loop, number, parse_gplink,
}
use opengpm.Directory.GpLink.Entry.{IsEntry, parse_gplink_entry_sound, parse_gplink_entry_complete}
use opengpm.Model.Som.{Link}

-- Entries in brackets, one behind the other, with nothing between them.
pub data Entries (wide : Bytes → Bytes) : Bytes → List Link → Type 0 where
  done : Entries wide [] []
  entry :
      {interior rest : Bytes} {l : Link} {ls : List Link}
      → Lacks b']' interior
      → IsEntry wide interior l
      → Entries wide rest ls
      → Entries wide (b'[' ∷ (interior ++ b']' ∷ rest)) (l ∷ ls)

module _ (wide : Bytes → Bytes) where
  -- One round takes exactly one entry.
  pub record IsNext (text : Bytes) (l : Link) (rest : Bytes) : Type 0 where
    pub interior : Bytes
    pub splits : text ≡ b'[' ∷ (interior ++ b']' ∷ rest)
    pub closes_first : Lacks b']' interior
    pub reads : parse_gplink_entry wide interior ≡ ok l

  bracketed :
      (s : Bytes) (i : ℕ) {l : Link} {rest : Bytes}
      → index_byte (b'[' ∷ s) b']' ≡ some i
      → parse_gplink_entry wide (drop 1 (take i (b'[' ∷ s))) ≡ ok l
      → rest ≡ drop (suc i) (b'[' ∷ s)
      → IsNext (b'[' ∷ s) l rest
  bracketed s zero f r e =
      absurd (unfold index_byte in ground (arith, Option-cases (index_byte s b']')))
  bracketed s (suc i) f r e =
      let cut = index_byte-some (b'[' ∷ s) b']' f in
      record {
        interior = take i s;
        splits = rw e cut.splits;
        closes_first = cut.before.1;
        reads = r;
      }

  parse_next-open :
      (s : Bytes) (found : Option ℕ) {l : Link} {rest : Bytes}
      → index_byte (b'[' ∷ s) b']' ≡ found
      → parse_next wide (b'[' ∷ s) ≡ ok (l, rest)
      → IsNext (b'[' ∷ s) l rest
  unfolding parse_next starts_entry
  parse_next-open s none f h = absurd (ground arith)
  parse_next-open s (some i) {l} {rest} f h =
      let whole = b'[' ∷ s in
      let (link, read, e) =
        both_ok (parse_gplink_entry wide (drop 1 (take i whole)))
          (λ link. ok (link, drop (suc i) whole)) (rw f at h) in
      bracketed s i f (ground arith) (ground arith)

  pub parse_next_sound :
      (text : Bytes) {l : Link} {rest : Bytes}
      → parse_next wide text ≡ ok (l, rest)
      → IsNext text l rest
  unfolding parse_next starts_entry
  parse_next_sound [] h = absurd (cc)
  parse_next_sound (c ∷ s) {l} {rest} h = elim (Bool-cases (c == b'[')) [
    | inl opens ↦
        let e = (==_iff c b'[').0 opens in
        subst (λ b. IsNext (b ∷ s) l rest) (sym e)
          (parse_next-open s _ refl (subst (λ b. parse_next wide (b ∷ s) ≡ ok (l, rest)) e h))
    | inr other ↦ absurd (ground arith)
  ]

  pub parse_next_entry :
      (interior rest : Bytes)
      → Lacks b']' interior
      → parse_next wide (b'[' ∷ (interior ++ b']' ∷ rest))
        ≡ (parse_gplink_entry wide interior >>= λ l. ok (l, rest))
  unfolding parse_next starts_entry
  parse_next_entry interior rest h = rw (
    index_byte-append (b'[' ∷ interior) b']' rest (λ e. absurd (omega arith), h),
    take_before interior b']' rest,
    drop_past interior b']' rest,
  )

  parse_loop_sound :
      (fuel : ℕ) (text : Bytes) (before : List Link) {out : List Link}
      → parse_loop wide fuel text before ≡ ok out
      → (ls : List Link) × Entries wide text ls × (out ≡ before ++ ls)
  unfolding parse_loop
  parse_loop_sound fuel [] before h = ([], done, ground (arith, append-nil before))
  parse_loop_sound zero (c ∷ text) before h = absurd (cc)
  parse_loop_sound (suc fuel) (c ∷ text) before {out} h =
      let ((l, rest), taken, later) = both_ok (parse_next wide (c ∷ text)) _ h in
      let next = parse_next_sound (c ∷ text) taken in
      let (ls, es, e) = parse_loop_sound fuel rest (before ++ l ∷ []) later in
      (
        l ∷ ls,
        subst (λ t. Entries wide t (l ∷ ls)) (sym next.splits)
            (entry next.closes_first (parse_gplink_entry_sound wide next.interior next.reads) es),
        e ∙ append_assoc before (l ∷ []) ls,
      )

  parse_loop_complete :
      (fuel : ℕ) {text : Bytes} {ls : List Link} (before : List Link)
      → length text ≤ fuel
      → Entries wide text ls
      → parse_loop wide fuel text before ≡ ok (before ++ ls)
  unfolding parse_loop
  parse_loop_complete fuel before enough done = ap ok (sym (append-nil before))
  parse_loop_complete zero before enough (entry lacks e es) = absurd (omega arith)
  parse_loop_complete (suc fuel) before enough (entry {interior} {rest} {l} {ls} lacks e es) =
      rw (parse_next_entry interior rest lacks, parse_gplink_entry_complete wide interior e)
        (parse_loop_complete fuel (before ++ l ∷ [])
            (omega (arith, length-append interior (b']' ∷ rest))) es
          ∙ ap ok (append_assoc before (l ∷ []) ls))

  -- `ParseGPLink` succeeds exactly on texts that are a sequence of entries once surrounding white
  -- space is gone; it returns their links last entry first, and numbers them from 1.
  pub parse_gplink_iff :
      (s : Bytes) (links : List Link)
      → (parse_gplink wide s ≡ ok links)
        ↔ ((ls : List Link) × Entries wide (trim_space s) ls × (links ≡ number 0 (reverse ls)))
  unfolding parse_gplink
  parse_gplink_iff s links = (to, from)
    where
      to :
          parse_gplink wide s ≡ ok links
          → (ls : List Link) × Entries wide (trim_space s) ls × (links ≡ number 0 (reverse ls))
      to h =
          let (out, looped, numbered) =
            both_ok (parse_loop wide (length (trim_space s)) (trim_space s) []) _ h in
          let (ls, es, e) = parse_loop_sound (length (trim_space s)) (trim_space s) [] looped in
          (ls, es, ground arith)

      from :
          ((ls : List Link) × Entries wide (trim_space s) ls × (links ≡ number 0 (reverse ls)))
          → parse_gplink wide s ≡ ok links
      from (ls, es, e) = rw (parse_loop_complete (length (trim_space s)) [] (omega arith) es, e)
