-- ===== src/Storage/Tests.antt =====
-- The padded file and the local filesystem at concrete inputs.
use moonclip.Prelude.{ℕ, List, [], ◌∷◌, ◌≡◌, refl}
use moonclip.Storage.{StorageLaws, join_parts, padded, local_storage, rposition_nonzero}
use moonclip.Storage.Padding.{EndsNonzero}
use moonclip.Storage.Local.{local_storage-StorageLaws}

abbrev three_parts : List (List ℕ)
three_parts = (1 ∷ 2 ∷ []) ∷ [] ∷ (3 ∷ []) ∷ []

padded_three : padded 8 three_parts ≡ 1 ∷ 2 ∷ 3 ∷ 0 ∷ 0 ∷ 0 ∷ 0 ∷ 0 ∷ []
unfolding padded join_parts
padded_three = refl

three_end : EndsNonzero (1 ∷ 0 ∷ 3 ∷ [])
unfolding rposition_nonzero
three_end = (2, refl, refl)

local_storage_example : StorageLaws (local_storage 4096)
local_storage_example = local_storage-StorageLaws 4096
