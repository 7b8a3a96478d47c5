-- ===== src/Utils/Pool.antt =====
-- A pool as a text and as a list of entries.
use my_cni.Prelude.{◌≡◌, ◌≢◌, List, [], All}
use my_cni.Text.{Bytes, Lacks}
use my_cni.Text.Split.{join-split, split-join}
use my_cni.Utils.{convert_string_to_array, convert_array_to_string}

-- A text split into entries and joined again is the text; a list of at least one entry, none of them
-- with a semicolon, joined and split again is the list.
pub convert_round_trip :
    ((s : Bytes) → convert_array_to_string (convert_string_to_array s) ≡ s)
    × ((ps : List Bytes)
        → ps ≢ []
        → All (Lacks b';') ps
        → convert_string_to_array (convert_array_to_string ps) ≡ ps)
unfolding convert_string_to_array convert_array_to_string
convert_round_trip = (λ s. join-split b';' s, λ ps h l. split-join b';' ps h l)
