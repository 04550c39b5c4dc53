-- ===== src/Paths/Defs.antt =====
-- `CleanAbsolutePath`, `UnderRoot` and `ChildOfRoot` (operator/internal/paths/paths.go).
use inferops.Base.{
  [], ◌∷◌, ◌++◌, not, if◌then◌else◌, Str, ◌==◌, str_eq, is_empty, has_prefix, trim_prefix,
  trim_suffix_byte, Result, ok, err, ◌>>◌, fail_if,
}
use inferops.RoutingPath.Clean.{slash, clean, is_abs}

pub data RootError : Type 0 where
  path_required not_absolute not_clean not_under_root equal_to_root : RootError

unfoldable pub clean_absolute_path : Str → Result RootError Str
clean_absolute_path path = do
  fail_if (is_empty path) path_required
  fail_if (not (is_abs path)) not_absolute
  let clean_path = clean path
  fail_if (not (clean_path == path)) not_clean
  ok clean_path

unfoldable pub under_root : Str → Str → Result RootError (Unit {0})
under_root path root =
    let trimmed = trim_suffix_byte root slash in
    if path == trimmed
    then ok tt
    else fail_if (not (has_prefix path (trimmed ++ slash ∷ []))) not_under_root

unfoldable pub child_of_root : Str → Str → Result RootError Str
child_of_root path root =
    let trimmed = trim_suffix_byte root slash in
    if path == trimmed
    then err equal_to_root
    else if not (has_prefix path (trimmed ++ slash ∷ []))
    then err not_under_root
    else ok (trim_prefix path (trimmed ++ slash ∷ []))
