-- ===== src/TreeCrawler/Tests.antt =====
-- Trees and templates for lab2/zad2/src/file_tree_crawler.c, and the witness.
use sysopy.Common.{ℕ, ◌≡◌, ◌↔◌, refl, true, false, List, [], ◌∷◌, ◌++◌}
use sysopy.DirectoryCount.{Mode}
use sysopy.TreeCrawler.{
  Files, nothing, directory, regular, gone, Crawler, compare_access, verify_access_template,
  traverse_recursively,
}
use sysopy.TreeCrawler.Listing.{after, traverse_recursively_lem}
use sysopy.TreeCrawler.Access.{byte_at, Granted, compare_access-Granted}

abbrev owner_only : Mode
owner_only = record {
  is_dir = false;
  user_read = true;
  user_write = true;
  user_execute = false;
  group_read = false;
  group_write = false;
  group_execute = false;
  other_read = false;
  other_write = false;
  other_execute = false;
}

-- "rw-r--r--", which allows more than the file gives
abbrev template : List ℕ
template = b'r' ∷ b'w' ∷ b'-' ∷ b'r' ∷ b'-' ∷ b'-' ∷ b'r' ∷ b'-' ∷ b'-' ∷ []

abbrev tree : Files
tree =
    directory (b'a' ∷ []) (regular (b'b' ∷ []) owner_only (gone (b'c' ∷ []) nothing))
      (regular (b'd' ∷ []) owner_only nothing)

abbrev start : Crawler
start = record { path_buffer = b'/' ∷ b't' ∷ []; indentation_lvl = 0; printed = []; lstats = [] }

traverse_recursively_lem_example :
    traverse_recursively (byte_at template) tree start ≡ after (byte_at template) tree start
traverse_recursively_lem_example = traverse_recursively_lem (byte_at template) tree start

template_passes : verify_access_template template ≡ true
unfolding verify_access_template
template_passes = refl

compare_access-Granted_example :
    (compare_access (byte_at template) owner_only ≡ true) ↔ Granted template owner_only
compare_access-Granted_example = compare_access-Granted template template_passes owner_only

-- The path of the tree and the level are as they were.
path_restored : (traverse_recursively (byte_at template) tree start).path_buffer ≡ b'/' ∷ b't' ∷ []
unfolding traverse_recursively compare_access
path_restored = refl

-- A template that is too long passes.
too_long : verify_access_template (template ++ template) ≡ true
unfolding verify_access_template
too_long = refl
