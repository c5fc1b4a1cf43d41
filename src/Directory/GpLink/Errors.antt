-- ===== src/Directory/GpLink/Errors.antt =====
-- Every error of `ParseGPLink`: the first thing in the text that is no entry, and nothing of the
-- entries before it is returned.
use mathlib.Core.Path.{subst}
use opengpm.Base.{
  ℕ, zero, suc, ◌≤◌, List, [], ◌∷◌, ◌++◌, ◌≡◌, ◌≢◌, inl, inr, ◌↔◌, refl, sym, ap, ◌∙◌, Option, none,
  some, Option-cases, Bool-cases, err, Result-cases, arith, length, take, drop, append_assoc,
  length-append, ◌==◌, ==_iff,
}
use opengpm.Text.{Bytes, Lacks}
use opengpm.Text.Search.{index_byte, index_byte-some, index_byte-none, index_byte-Lacks}
use opengpm.Text.Space.{trim_space}
use opengpm.Directory.GpLink.{
  LinkError, expected_entry, unterminated_entry, starts_entry, parse_gplink_entry, parse_next,
  parse_loop, parse_gplink,
}
use opengpm.Directory.GpLink.Entry.{IsEntry, parse_gplink_entry_sound, parse_gplink_entry_complete}
use opengpm.Directory.GpLink.Grammar.{Entries, done, entry, parse_next_sound, parse_next_entry}
use opengpm.Model.Som.{Link}

-- The text `rest` begins with no entry, and `e` says why.
pub data IsBad (wide : Bytes → Bytes) : Bytes → LinkError → Type 0 where
  no_bracket : (c : ℕ) (s : Bytes) → c ≢ b'[' → IsBad wide (c ∷ s) (expected_entry (c ∷ s))
  no_end : (s : Bytes) → Lacks b']' s → IsBad wide (b'[' ∷ s) (unterminated_entry (b'[' ∷ s))
  bad_entry :
      (interior s : Bytes) {e : LinkError}
      → Lacks b']' interior
      → parse_gplink_entry wide interior ≡ err e
      → IsBad wide (b'[' ∷ (interior ++ b']' ∷ s)) e

module _ (wide : Bytes → Bytes) where
  -- `text` is entries up to `bad`.
  pub record FailsAt (text : Bytes) (e : LinkError) : Type 0 where
    pub good : Bytes
    pub bad : Bytes
    pub links : List Link
    pub splits : text ≡ good ++ bad
    pub entries : Entries wide good links
    pub is_bad : IsBad wide bad e

  IsBad-parse_next : {t : Bytes} {e : LinkError} → IsBad wide t e → parse_next wide t ≡ err e
  unfolding parse_next starts_entry
  IsBad-parse_next (no_bracket c s ne) = ground arith
  IsBad-parse_next (no_end s lacks) =
      rw (index_byte-Lacks (b'[' ∷ s) b']' (λ e. absurd (omega arith), lacks))
  IsBad-parse_next (bad_entry interior s lacks h) = parse_next_entry wide interior s lacks ∙ rw h

  open_IsBad :
      (s : Bytes) (found : Option ℕ) {e : LinkError}
      → index_byte (b'[' ∷ s) b']' ≡ found
      → parse_next wide (b'[' ∷ s) ≡ err e
      → IsBad wide (b'[' ∷ s) e
  unfolding parse_next starts_entry
  open_IsBad s none {e} f h =
      subst (λ x. IsBad wide (b'[' ∷ s) x) (ground arith)
        (no_end s (index_byte-none (b'[' ∷ s) b']' f).1)
  open_IsBad s (some zero) f h =
      absurd (unfold index_byte in ground (arith, Option-cases (index_byte s b']')))
  open_IsBad s (some (suc i)) {e} f h =
      let cut = index_byte-some (b'[' ∷ s) b']' f in
      subst (λ t. IsBad wide t e) (sym cut.splits)
        (bad_entry (take i s) (drop (suc i) s) cut.before.1
          (ground (arith, Result-cases (parse_gplink_entry wide (take i s)))))

  parse_next-IsBad :
      (c : ℕ) (s : Bytes) {e : LinkError} → parse_next wide (c ∷ s) ≡ err e → IsBad wide (c ∷ s) e
  parse_next-IsBad c s {e} h = elim (Bool-cases (c == b'[')) [
    | inl opens ↦
        let is = (==_iff c b'[').0 opens in
        subst (λ b. IsBad wide (b ∷ s) e) (sym is)
          (open_IsBad s _ refl (subst (λ b. parse_next wide (b ∷ s) ≡ err e) is h))
    | inr other ↦
        let why : expected_entry (c ∷ s) ≡ e = unfold parse_next starts_entry in ground arith in
        subst (λ x. IsBad wide (c ∷ s) x) why (no_bracket c s (ground arith))
  ]

  FailsAt-entry :
      {interior rest : Bytes} {l : Link} {e : LinkError}
      → Lacks b']' interior
      → IsEntry wide interior l
      → FailsAt rest e
      → FailsAt (b'[' ∷ (interior ++ b']' ∷ rest)) e
  FailsAt-entry {interior} {rest} {l} lacks is_entry f = record {
    good = b'[' ∷ (interior ++ b']' ∷ f.good);
    bad = f.bad;
    links = l ∷ f.links;
    splits =
        ap (λ r. b'[' ∷ (interior ++ b']' ∷ r)) f.splits
        ∙ ap (◌∷◌ b'[') (sym (append_assoc interior (b']' ∷ f.good) f.bad));
    entries = entry lacks is_entry f.entries;
    is_bad = f.is_bad;
  }

  FailsAt-here : {text : Bytes} {e : LinkError} → IsBad wide text e → FailsAt text e
  FailsAt-here {text} b = record {
    good = [];
    bad = text;
    links = [];
    splits = refl;
    entries = done;
    is_bad = b;
  }

  pub parse_loop-FailsAt :
      (fuel : ℕ) (text : Bytes) (before : List Link) {e : LinkError}
      → length text ≤ fuel
      → parse_loop wide fuel text before ≡ err e
      → FailsAt text e
  unfolding parse_loop
  parse_loop-FailsAt fuel [] before enough h = absurd (cc)
  parse_loop-FailsAt zero (c ∷ text) before enough h = absurd (omega arith)
  parse_loop-FailsAt (suc fuel) (c ∷ text) before {e} enough h =
      elim (Result-cases (parse_next wide (c ∷ text))) [
        | inl ((l, rest), taken) ↦
            let next = parse_next_sound wide (c ∷ text) taken in
            let fewer : length rest ≤ fuel =
              omega (arith, ap length next.splits, length-append next.interior (b']' ∷ rest)) in
            subst (λ t. FailsAt t e) (sym next.splits)
              (FailsAt-entry next.closes_first
                (parse_gplink_entry_sound wide next.interior next.reads)
                (parse_loop-FailsAt fuel rest (before ++ l ∷ []) fewer (rw taken at h)))
        | inr (x, failed) ↦
            let why : x ≡ e = ground arith in
            FailsAt-here
              (parse_next-IsBad c text (subst (λ y. parse_next wide (c ∷ text) ≡ err y) why failed))
      ]

  parse_loop_stop :
      (fuel : ℕ) (t : Bytes) (before : List Link) {e : LinkError}
      → length t ≤ fuel
      → IsBad wide t e
      → parse_loop wide fuel t before ≡ err e
  unfolding parse_loop
  parse_loop_stop fuel [] before enough b = elim b [ ]
  parse_loop_stop zero (c ∷ t) before enough b = absurd (omega arith)
  parse_loop_stop (suc fuel) (c ∷ t) before enough b = rw (IsBad-parse_next b)

  parse_loop_bad :
      (fuel : ℕ) {good : Bytes} {links : List Link} (bad : Bytes) (before : List Link)
      {e : LinkError}
      → length (good ++ bad) ≤ fuel
      → Entries wide good links
      → IsBad wide bad e
      → parse_loop wide fuel (good ++ bad) before ≡ err e
  unfolding parse_loop
  parse_loop_bad fuel bad before enough done b = parse_loop_stop fuel bad before enough b
  parse_loop_bad zero bad before enough (entry lacks x es) b = absurd (omega arith)
  parse_loop_bad (suc fuel) bad before enough (entry {interior} {rest} {l} {ls} lacks x es) b =
      rw
        (
          append_assoc interior (b']' ∷ rest) bad,
          parse_next_entry wide interior (rest ++ bad) lacks,
          parse_gplink_entry_complete wide interior x,
        )
        (parse_loop_bad fuel bad (before ++ l ∷ [])
          (omega (
            arith,
            length-append (b'[' ∷ (interior ++ b']' ∷ rest)) bad,
            length-append interior (b']' ∷ rest),
            length-append rest bad,
          ))
          es b)

  -- `ParseGPLink` returns an error exactly when the trimmed text is some entries followed by
  -- something that begins with no entry; the error is that of this first place, so the entries
  -- before it are never returned, and those behind it are never read. The loop's fuel suffices.
  pub parse_gplink-FailsAt :
      (s : Bytes) (e : LinkError) → (parse_gplink wide s ≡ err e) ↔ FailsAt (trim_space s) e
  unfolding parse_gplink
  parse_gplink-FailsAt s e = (to, from)
    where
      to : parse_gplink wide s ≡ err e → FailsAt (trim_space s) e
      to h =
          parse_loop-FailsAt (length (trim_space s)) (trim_space s) [] (omega arith) (
            ground
              (arith, Result-cases (parse_loop wide (length (trim_space s)) (trim_space s) [])))

      from : FailsAt (trim_space s) e → parse_gplink wide s ≡ err e
      from f =
          rw f.splits (
            rw
              (parse_loop_bad (length (f.good ++ f.bad)) f.bad [] (omega arith) f.entries f.is_bad))
