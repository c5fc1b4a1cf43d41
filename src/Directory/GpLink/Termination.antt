-- ===== src/Directory/GpLink/Termination.antt =====
-- The loop of `ParseGPLink` in internal/directory/gplink.go ends: each round takes at least one byte.
use opengpm.Base.{
  ℕ, Bool-cases, Result, zero, suc, ◌≤◌, List, [], ◌∷◌, ◌++◌, ◌≡◌, ◌≢◌, inl, inr, refl, ap, ◌∙◌, ok,
  err, Result-cases, arith, length, take, drop, Option, none, some, length-append,
}
use opengpm.Text.{Bytes}
use opengpm.Directory.GpLink.{
  gpo_guid_from_dn, DnError, starts_fold, link_scheme, LinkError, out_of_fuel, parse_body,
  parse_gplink_entry, parse_next, parse_loop,
}
use opengpm.Directory.GpLink.Grammar.{parse_next_sound}
use opengpm.Directory.GpLink.Errors.{IsBad, no_bracket, no_end, bad_entry, parse_loop-FailsAt}
use opengpm.Text.Decimal.{NumError, parse_uint, max_u32}
use opengpm.Text.Search.{last_index_byte}
use opengpm.Directory.GpLink.Entry.{assemble}
use opengpm.Model.Som.{Guid, Link}

-- No entry is refused for want of fuel.
assemble-in_fuel :
    (t raw dn : Bytes) (ro : Result NumError ℕ) (rg : Result DnError Guid)
    → assemble t raw dn ro rg ≢ err out_of_fuel
assemble-in_fuel t raw dn (ok n) (ok guid) h = cc
assemble-in_fuel t raw dn (ok n) (err x) h = cc
assemble-in_fuel t raw dn (err x) rg h = cc

module _ (wide : Bytes → Bytes) where
  parse_next-shorter :
      (text : Bytes) {l : Link} {rest : Bytes}
      → parse_next wide text ≡ ok (l, rest)
      → suc (length rest) ≤ length text
  parse_next-shorter text {l} {rest} h =
      let next = parse_next_sound wide text h in
      omega (arith, ap length next.splits, length-append next.interior (b']' ∷ rest))

  -- Two amounts of fuel that are both enough.
  parse_loop-fuel :
      (fuel fuel' : ℕ) (text : Bytes) (before : List Link)
      → length text ≤ fuel
      → length text ≤ fuel'
      → parse_loop wide fuel text before ≡ parse_loop wide fuel' text before
  unfolding parse_loop
  parse_loop-fuel fuel fuel' [] before enough enough' = refl
  parse_loop-fuel zero fuel' (c ∷ text) before enough enough' = absurd (omega arith)
  parse_loop-fuel (suc fuel) zero (c ∷ text) before enough enough' = absurd (omega arith)
  parse_loop-fuel (suc fuel) (suc fuel') (c ∷ text) before enough enough' =
      elim (Result-cases (parse_next wide (c ∷ text))) [
        | inl ((l, rest), taken) ↦
            let fewer = parse_next-shorter (c ∷ text) taken in
            rw taken (
              parse_loop-fuel fuel fuel' rest (before ++ l ∷ []) (omega (arith, fewer))
                (omega (arith, fewer)))
        | inr (x, failed) ↦ rw failed refl
      ]

  parse_body-in_fuel :
      (t body : Bytes) (semi : Option ℕ) → parse_body wide t body semi ≢ err out_of_fuel
  unfolding parse_body
  parse_body-in_fuel t body none h = cc
  parse_body-in_fuel t body (some semi) h =
      assemble-in_fuel t (drop (suc semi) body) (take semi body)
        (parse_uint max_u32 (drop (suc semi) body)) (gpo_guid_from_dn wide (take semi body)) h

  parse_gplink_entry-in_fuel : (t : Bytes) → parse_gplink_entry wide t ≢ err out_of_fuel
  unfolding parse_gplink_entry
  parse_gplink_entry-in_fuel t h = elim (Bool-cases (starts_fold link_scheme t)) [
    | inl e ↦
        let body = drop (length link_scheme) t in
        parse_body-in_fuel t body (last_index_byte body b';') (rw e at h)
    | inr e ↦ absurd (ground arith)
  ]

  IsBad-in_fuel : {t : Bytes} {e : LinkError} → IsBad wide t e → e ≢ out_of_fuel
  IsBad-in_fuel (no_bracket c s other) same = cc
  IsBad-in_fuel (no_end s lacks) same = cc
  IsBad-in_fuel (bad_entry interior s lacks h) same =
      parse_gplink_entry-in_fuel interior (h ∙ ap err same)

  -- The loop of `ParseGPLink` ends on every text, after at most as many rounds as the text has
  -- bytes: fuel beyond that changes nothing, and with it the loop never runs out.
  pub parse_loop_terminates :
      (text : Bytes) (before : List Link) (fuel : ℕ)
      → length text ≤ fuel
      → (parse_loop wide fuel text before ≡ parse_loop wide (length text) text before)
        × (parse_loop wide fuel text before ≢ err out_of_fuel)
  parse_loop_terminates text before fuel enough = (
    parse_loop-fuel fuel (length text) text before enough (omega arith),
    λ h. IsBad-in_fuel (parse_loop-FailsAt wide fuel text before enough h).is_bad refl,
  )
