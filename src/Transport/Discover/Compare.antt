-- ===== src/Transport/Discover/Compare.antt =====
-- The comparison function of `DiscoverDCs` is a total order on what it looks at: the rank of a
-- domain controller, which is all of it but the port.
use opengpm.Base.{Bool-set, ℕ, [], ◌∷◌, true, false, ◌≡◌, refl, arith, ◌⊎◌, ◌<◌}
use opengpm.Base.Int.{is_neg}
use opengpm.Text.{Bytes}
use opengpm.Transport.Discover.{Dc, compare_text, compare_dc}

pub record Rank : Type 0 where
  pub priority : ℕ
  pub weight : ℕ
  pub host : Bytes

abbrev pub rank : Dc → Rank
rank d = record { priority = d.priority; weight = d.weight; host = d.host }

-- `s` is not behind `t` in the bytewise order.
unfoldable pub TextLe : Bytes → Bytes → Type 0
TextLe s t = is_neg (compare_text t s) ≡ false

-- The documented order: priority ascending, then weight descending, then host ascending.
pub RankLe : Rank → Rank → Type 0
RankLe a b =
    (a.priority < b.priority)
    ⊎ ((a.priority ≡ b.priority)
        × ((b.weight < a.weight) ⊎ ((a.weight ≡ b.weight) × TextLe a.host b.host)))

pub TextLe-refl : (s : Bytes) → TextLe s s
unfolding TextLe compare_text
TextLe-refl [] = refl
TextLe-refl (x ∷ s) = ground (arith, TextLe-refl s)

pub TextLe-trans : (s t u : Bytes) → TextLe s t → TextLe t u → TextLe s u
unfolding TextLe compare_text
TextLe-trans [] t [] p q = refl
TextLe-trans [] t (z ∷ u) p q = refl
TextLe-trans (x ∷ s) [] u p q = cc
TextLe-trans (x ∷ s) (y ∷ t) [] p q = cc
TextLe-trans (x ∷ s) (y ∷ t) (z ∷ u) p q = ground (arith, TextLe-trans s t u)

pub TextLe-prop : (s t : Bytes) → IsProp (TextLe s t)
unfolding TextLe
TextLe-prop s t = Bool-set (is_neg (compare_text t s)) false

pub TextLe-antisymm : (s t : Bytes) → TextLe s t → TextLe t s → s ≡ t
unfolding TextLe compare_text
TextLe-antisymm [] [] p q = refl
TextLe-antisymm [] (y ∷ t) p q = cc
TextLe-antisymm (x ∷ s) [] p q = cc
TextLe-antisymm (x ∷ s) (y ∷ t) p q = ground (arith, TextLe-antisymm s t)

pub TextLe-total : (s t : Bytes) → is_neg (compare_text s t) ≡ true → TextLe s t
unfolding TextLe compare_text
TextLe-total [] [] h = refl
TextLe-total [] (y ∷ t) h = refl
TextLe-total (x ∷ s) [] h = cc
TextLe-total (x ∷ s) (y ∷ t) h = ground (arith, TextLe-total s t)

-- `compare_dc` tells the documented order.
pub compare_dc-RankLe : (a b : Dc) → is_neg (compare_dc b a) ≡ false → RankLe (rank a) (rank b)
unfolding compare_dc RankLe TextLe
compare_dc-RankLe a b h = ground arith

pub RankLe-compare_dc : (a b : Dc) → RankLe (rank a) (rank b) → is_neg (compare_dc b a) ≡ false
unfolding compare_dc RankLe TextLe
RankLe-compare_dc a b h = ground arith

pub RankLe-refl : (a : Rank) → RankLe a a
unfolding RankLe
RankLe-refl a = ground (arith, TextLe-refl a.host)

pub RankLe-trans : (a b c : Rank) → RankLe a b → RankLe b c → RankLe a c
unfolding RankLe
RankLe-trans a b c p q = ground (arith, TextLe-trans a.host b.host c.host)

pub RankLe-antisymm : (a b : Rank) → RankLe a b → RankLe b a → a ≡ b
unfolding RankLe
RankLe-antisymm a b p q = ground (arith, TextLe-antisymm a.host b.host)

pub compare_dc_total : (a b : Dc) → is_neg (compare_dc a b) ≡ true → is_neg (compare_dc b a) ≡ false
unfolding compare_dc TextLe
compare_dc_total a b h = ground (arith, TextLe-total a.host b.host)
