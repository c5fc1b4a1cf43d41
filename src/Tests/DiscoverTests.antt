-- ===== src/Tests/DiscoverTests.antt =====
-- internal/transport/discover.go on recorded SRV answers, with insertion sort for `SortFunc`.
use mathlib.Core.List.{reverse_perm}
use opengpm.Base.{ℕ, List, [], ◌∷◌, map, ◌≡◌, refl, Result, ok}
use opengpm.Base.Sort.Insertion.{insertion_sorter, insertion_sort}
use opengpm.Text.{Bytes, codes}
use opengpm.Transport.Discover.{Dc, Srv, Query, query, dc_of, compare_dc, discover_dcs}
use opengpm.Transport.Discover.Compare.{rank}
use opengpm.Transport.Discover.Select.{
  Discovers, discover_dcs-Discovers, discover_dcs_deterministic,
}

abbrev domain : Bytes
domain = codes "gplab.local"

abbrev near : Srv
near = record { target = codes "dc2.gplab.local."; port = 389; priority = 0; weight = 100 }

abbrev far : Srv
far = record { target = codes "dc1.gplab.local."; port = 389; priority = 10; weight = 100 }

abbrev light : Srv
light = record { target = codes "dc3.gplab.local"; port = 389; priority = 0; weight = 5 }

abbrev answered : List Srv → Query → Result ℕ (List Srv)
answered answers q = ok answers

abbrev expected : List Dc
expected =
    record { host = codes "dc2.gplab.local"; port = 389; priority = 0; weight = 100 }
    ∷ record { host = codes "dc3.gplab.local"; port = 389; priority = 0; weight = 5 }
    ∷ record { host = codes "dc1.gplab.local"; port = 389; priority = 10; weight = 100 }
    ∷ []

discovers :
    discover_dcs (answered (far ∷ light ∷ near ∷ [])) (insertion_sorter Dc) domain ≡ ok expected
unfolding discover_dcs dc_of compare_dc insertion_sort
discovers = refl

discovers_again :
    discover_dcs (answered (near ∷ light ∷ far ∷ [])) (insertion_sorter Dc) domain ≡ ok expected
unfolding discover_dcs dc_of compare_dc insertion_sort
discovers_again = refl

discover_dcs-Discovers_example :
    Discovers domain
      (answered (far ∷ near ∷ []) (query domain))
      (discover_dcs (answered (far ∷ near ∷ [])) (insertion_sorter Dc) domain)
discover_dcs-Discovers_example =
    discover_dcs-Discovers (answered (far ∷ near ∷ [])) (insertion_sorter Dc) domain

discover_dcs_deterministic_example : map rank expected ≡ map rank expected
discover_dcs_deterministic_example =
    discover_dcs_deterministic (answered (far ∷ light ∷ near ∷ []))
      (answered (near ∷ light ∷ far ∷ [])) (insertion_sorter Dc) (insertion_sorter Dc) domain refl
      refl (reverse_perm (near ∷ light ∷ far ∷ [])) discovers discovers_again
