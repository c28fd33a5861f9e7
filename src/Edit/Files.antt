-- ===== src/Edit/Files.antt =====
-- The files that the edit engine reads and writes (src/services/files.rs: read_bytes, read,
-- write_atomic_locked), as a map from paths to what a read of the path gives. Resolution of
-- symbolic links and the calls of the operating system stand behind that map; their failures are
-- values of it, or arguments. Paths are compared as they are spelled: `./a` and `a`, which the file
-- system resolves to one file, are two paths here.
pub mod Utf8
use agent_workspace_hub.Prelude.{
  ℕ, ◌*◌, Bool, true, false, ◌&&◌, ◌||◌, Option, none, some, List, [], ◌∷◌, length, Text, codes,
  text_eq, Result, ok, err, if◌then◌else◌, ltb, leb, ◌==◌,
}
use agent_workspace_hub.Edit.Matching.{Bytes}

abbrev pub max_file_bytes : ℕ
max_file_bytes = 8 * 1024 * 1024

pub data FileFault : Type 0 where
  not_found : (message : Text) → FileFault
  io_error : (message : Text) → FileFault

-- What `fs::read` gives at each path.
abbrev pub Disk : Type 0
Disk = Text → Result FileFault Bytes

unfoldable pub read_bytes : Disk → Text → Result FileFault Bytes
read_bytes disk path = elim (disk path) [
  | err fault ↦ err fault
  | ok bytes ↦
      if ltb max_file_bytes (length bytes)
      then err (io_error (codes "file exceeds the 8388608 byte limit"))
      else ok bytes
]

-- The ranges of the bytes that follow a leading byte in UTF-8; none for a byte that leads nothing.
unfoldable pub following : ℕ → Option (List (ℕ × ℕ))
following b =
    if ltb b 0x80
    then some []
    else if ltb b 0xc2
    then none
    else if ltb b 0xe0
    then some ((0x80, 0xbf) ∷ [])
    else if b == 0xe0
    then some ((0xa0, 0xbf) ∷ (0x80, 0xbf) ∷ [])
    else if b == 0xed
    then some ((0x80, 0x9f) ∷ (0x80, 0xbf) ∷ [])
    else if ltb b 0xf0
    then some ((0x80, 0xbf) ∷ (0x80, 0xbf) ∷ [])
    else if b == 0xf0
    then some ((0x90, 0xbf) ∷ (0x80, 0xbf) ∷ (0x80, 0xbf) ∷ [])
    else if ltb b 0xf4
    then some ((0x80, 0xbf) ∷ (0x80, 0xbf) ∷ (0x80, 0xbf) ∷ [])
    else if b == 0xf4
    then some ((0x80, 0x8f) ∷ (0x80, 0xbf) ∷ (0x80, 0xbf) ∷ [])
    else none

-- Whether bytes go on with the given ranges and then with whole characters.
unfoldable pub utf8_from : List (ℕ × ℕ) → Bytes → Bool
unfolding following
utf8_from [] [] = true
utf8_from (range ∷ ranges) [] = false
utf8_from [] (b ∷ bytes) = elim (following b) [
  | none ↦ false
  | some ranges ↦ utf8_from ranges bytes
]
utf8_from ((low, high) ∷ ranges) (b ∷ bytes) = leb low b && leb b high && utf8_from ranges bytes

-- `std::str::from_utf8(&bytes).is_ok()`.
unfoldable pub is_utf8 : Bytes → Bool
unfolding utf8_from
is_utf8 bytes = utf8_from [] bytes

unfoldable pub read : Disk → Text → Result FileFault Bytes
unfolding read_bytes is_utf8
read disk path = elim (read_bytes disk path) [
  | err fault ↦ err fault
  | ok bytes ↦
      if is_utf8 bytes
      then ok bytes
      else err (io_error (codes "stream did not contain valid UTF-8"))
]

-- The disk after the rename of a staged file over its target.
unfoldable pub put : Text → Bytes → Disk → Disk
unfolding text_eq
put path content disk asked = if text_eq asked path then ok content else disk asked

-- The atomic write. A failure of the staging or of the rename is given by its message.
unfoldable pub write_atomic_locked : Option Text → Text → Bytes → Disk → Result Text Disk
unfolding put
write_atomic_locked failure path content disk =
    if ltb max_file_bytes (length content)
    then err (codes "content exceeds the 8388608 byte limit")
    else elim failure [ some message ↦ err message | none ↦ ok (put path content disk) ]
