-- ===== src/FileSystem/Paths.antt =====
-- The paths of a metadata file: what is written for them is one word, and is split as it was joined.
use os_hw.Prelude.{◌≡◌, ◌≢◌, refl, false, some, List, [], ◌∷◌, ◌++◌, ◌==◌, length}
use os_hw.Text.{Text, is_space, NoSpace, IsWord}
use os_hw.FileSystem.Metadata.{print_paths, take_path, take_paths}

-- A path without white space and without `;`.
abbrev pub IsPath : Text → Type 0
IsPath [] = Unit
IsPath (c ∷ p) = (is_space c ≡ false) × ((c == b';') ≡ false) × IsPath p

abbrev pub ArePaths : List Text → Type 0
ArePaths [] = Unit
ArePaths (p ∷ ps) = IsPath p × ArePaths ps

take_path_append : (p r : Text) → IsPath p → take_path (p ++ b';' ∷ r) ≡ some (p, r)
unfolding take_path
take_path_append [] r h = refl
take_path_append (c ∷ p) r h = rw (h.1, take_path_append p r h.2)

pub take_paths-print_paths :
    (ps : List Text) → ArePaths ps → take_paths (length ps) (print_paths (length ps) ps) ≡ some ps
unfolding take_paths print_paths
take_paths-print_paths [] h = refl
take_paths-print_paths (p ∷ ps) h = rw (
  take_paths,
  print_paths,
  take_path_append p (print_paths (length ps) ps) h.0,
  take_paths-print_paths ps h.1,
)

print_path-NoSpace : (p r : Text) → IsPath p → NoSpace r → NoSpace (p ++ b';' ∷ r)
unfolding is_space
print_path-NoSpace [] r h k = (refl, k)
print_path-NoSpace (c ∷ p) r h k = (h.0, print_path-NoSpace p r h.2 k)

print_paths-NoSpace : (ps : List Text) → ArePaths ps → NoSpace (print_paths (length ps) ps)
unfolding print_paths
print_paths-NoSpace [] h = tt
print_paths-NoSpace (p ∷ ps) h =
    print_path-NoSpace p (print_paths (length ps) ps) h.0 (print_paths-NoSpace ps h.1)

print_path-IsWord : (p r : Text) → IsPath p → NoSpace r → IsWord (p ++ b';' ∷ r)
print_path-IsWord [] r h k = print_path-NoSpace [] r h k
print_path-IsWord (c ∷ p) r h k = print_path-NoSpace (c ∷ p) r h k

pub print_paths-IsWord :
    (ps : List Text) → ArePaths ps → ps ≢ [] → IsWord (print_paths (length ps) ps)
unfolding print_paths
print_paths-IsWord [] h some_path = absurd (some_path refl)
print_paths-IsWord (p ∷ ps) h some_path =
    print_path-IsWord p (print_paths (length ps) ps) h.0 (print_paths-NoSpace ps h.1)
