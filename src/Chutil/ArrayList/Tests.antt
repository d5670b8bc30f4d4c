-- ===== src/Chutil/ArrayList/Tests.antt =====
-- Instances of the array list's theorems.
use chlibs.Common.{ℕ, length, ◌<◌, ◌≡◌, refl, true, some, List, [], ◌∷◌, arith}
use chlibs.Chutil.ArrayList.{ArrayList, al_push, al_poll}
use chlibs.Chutil.ArrayList.Stores.{Stores, al_push-Stores, al_poll-Stores}

-- a full list
abbrev al : ArrayList ℕ
al = record { cap = 2; len = 2; cell_size = 4; arr = 5 ∷ 6 ∷ []; iter_ind = 0 }

al-Stores : Stores al (5 ∷ 6 ∷ [])
al-Stores = record { junk = []; block = refl; fits = refl; count = refl; some_cell = omega arith }

abbrev held : List ℕ
held = 5 ∷ 6 ∷ []

al_push-Stores_example :
    Stores (al_push al 7 (1 ∷ 2 ∷ [])) (5 ∷ 6 ∷ 7 ∷ [])
    × (length held ≡ al.cap → (al_push al 7 (1 ∷ 2 ∷ [])).cap ≡ 4)
    × (length held < al.cap → (al_push al 7 (1 ∷ 2 ∷ [])).cap ≡ 2)
al_push-Stores_example = al_push-Stores al (5 ∷ 6 ∷ []) 7 (1 ∷ 2 ∷ []) al-Stores refl (omega arith)

al_poll-Stores_example : ((al_poll al true).0 ≡ some 5) × Stores (al_poll al true).1 (6 ∷ [])
al_poll-Stores_example = al_poll-Stores al 5 (6 ∷ []) true al-Stores
