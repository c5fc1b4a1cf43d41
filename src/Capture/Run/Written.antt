-- ===== src/Capture/Run/Written.antt =====
-- The file that `write` of scripts/capture-gpo/main.go leaves.
use opengpm.Base.{
  ℕ, List, [], ◌∷◌, ◌++◌, append_assoc, ◌*◌, ◌+◌, ◌^◌, ◌≡◌, refl, sym, ap, ◌∙◌, Option, none, some,
  Result, ok, err,
}
use opengpm.Text.{Bytes}
use opengpm.Capture.Run.{
  out_path, out_dir, wrote, RunEvent, printed, made_dir, wrote_file, RunOutcome, World, stop,
  before, after_file, after_dir, write,
}

module _ {R C P H E : Type 0} (w : World R C P H E) where
  abbrev pub fixture_tail : Bytes → ℕ → List (RunEvent R C P H E)
  fixture_tail b n = wrote_file out_path (b ++ 10 ∷ []) (6 * 8 ^ 2) ∷ printed (wrote n) ∷ []

  -- These bytes were encoded, and the file was written and took them.
  pub record Wrote (n : ℕ) (r : Result E Bytes) (o : RunOutcome R C P H E) : Type 0 where
    pub bytes : Bytes
    pub front : List (RunEvent R C P H E)
    pub encoded : r ≡ ok bytes
    pub made_dir_there : w.mkdir_all out_dir (7 * 8 ^ 2 + 5 * 8) ≡ none
    pub taken : w.write_file out_path (bytes ++ 10 ∷ []) (6 * 8 ^ 2) ≡ none
    pub done : o.events ≡ front ++ fixture_tail bytes n

  after_file_ok :
      (n : ℕ) (b : Bytes) (x : Option E)
      → w.mkdir_all out_dir (7 * 8 ^ 2 + 5 * 8) ≡ none
      → w.write_file out_path (b ++ 10 ∷ []) (6 * 8 ^ 2) ≡ x
      → (after_file w n
          (made_dir out_dir (7 * 8 ^ 2 + 5 * 8)
            ∷ wrote_file out_path (b ++ 10 ∷ []) (6 * 8 ^ 2)
            ∷ [])
          x).failed
        ≡ none
      → Wrote n (ok b) (
          after_file w n
            (made_dir out_dir (7 * 8 ^ 2 + 5 * 8)
              ∷ wrote_file out_path (b ++ 10 ∷ []) (6 * 8 ^ 2)
              ∷ [])
            x)
  unfolding after_file
  after_file_ok n b (some x) dir at_file h = absurd (cc)
  after_file_ok n b none dir at_file h = record {
    bytes = b;
    front = made_dir out_dir (7 * 8 ^ 2 + 5 * 8) ∷ [];
    encoded = refl;
    made_dir_there = dir;
    taken = at_file;
    done = refl;
  }

  after_dir_ok :
      (n : ℕ) (b : Bytes) (x : Option E)
      → w.mkdir_all out_dir (7 * 8 ^ 2 + 5 * 8) ≡ x
      → (after_dir w n b x).failed ≡ none
      → Wrote n (ok b) (after_dir w n b x)
  unfolding after_dir
  after_dir_ok n b (some x) dir h = absurd (cc)
  after_dir_ok n b none dir h =
      after_file_ok n b (w.write_file out_path (b ++ 10 ∷ []) (6 * 8 ^ 2)) dir refl h

  pub write_ok :
      (n : ℕ) (r : Result E Bytes) → (write w n r).failed ≡ none → Wrote n r (write w n r)
  unfolding write stop
  write_ok n (err x) h = absurd (cc)
  write_ok n (ok b) h = after_dir_ok n b (w.mkdir_all out_dir (7 * 8 ^ 2 + 5 * 8)) refl h

  pub Wrote-before :
      {n : ℕ} {r : Result E Bytes} (es : List (RunEvent R C P H E)) (o : RunOutcome R C P H E)
      → Wrote n r o
      → Wrote n r (before w es o)
  unfolding before
  Wrote-before es o x = record {
    bytes = x.bytes;
    front = es ++ x.front;
    encoded = x.encoded;
    made_dir_there = x.made_dir_there;
    taken = x.taken;
    done = ap (λ l. es ++ l) x.done ∙ sym (append_assoc es x.front _);
  }

  pub write_done :
      (n : ℕ) {r : Result E Bytes} {b : Bytes}
      → r ≡ ok b
      → w.mkdir_all out_dir (7 * 8 ^ 2 + 5 * 8) ≡ none
      → w.write_file out_path (b ++ 10 ∷ []) (6 * 8 ^ 2) ≡ none
      → (write w n r).failed ≡ none
  unfolding write after_dir after_file
  write_done n encoded dir taken = rw (encoded, dir, taken) refl
