-- ===== src/Files/Match.antt =====
-- lib/files.c: files that match hold the same bytes.
use clr_boot_manager.Prelude.{◌≡◌, ◌↔◌, true, Option, none, some, Bytes, streq_iff, arith}
use clr_boot_manager.Platform.{Host}
use clr_boot_manager.Files.{both_match, files_match}

both_match_iff :
    (H : Host) (content : Bytes) (o : Option Bytes)
    → (both_match H (some content) o ≡ true) ↔ (o ≡ some content)
unfolding both_match
both_match_iff H content none = ground arith
both_match_iff H content (some other) = ground (arith, streq_iff content other)

-- Where the first file can be read, the second matches it exactly if it holds the same bytes.
pub files_match_iff :
    (H : Host) (s : H.State) (p1 p2 content : Bytes)
    → H.read s p1 ≡ some content
    → (files_match H s p1 p2 ≡ true) ↔ (H.read s p2 ≡ some content)
unfolding files_match
files_match_iff H s p1 p2 content e = rw e (both_match_iff H content (H.read s p2))
