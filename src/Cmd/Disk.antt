-- ===== src/Cmd/Disk.antt =====
-- The files that the commands of cmd/keys.go read and write, and `dumpJson`. What the operating system
-- answers besides the files that are there is an argument.
pub mod Files
use Prim.Native.String as Str
use relayer2_public.Base.{
  String, ◌≡◌, Bool, true, false, ◌||◌, Option, none, some, List, [], ◌∷◌, same_text, is_some,
  if◌then◌else◌,
}

-- `KeyFile`.
pub record KeyFile : Type 0 where
  pub account_id : String
  pub public_key : String
  pub secret_key : String

-- A file that holds a key, or any other: a key that was not written to its end is none.
pub data Content : Type 0 where
  key_file : KeyFile → Content
  other_content : Content

abbrev pub Disk : Type 0
Disk = List (String × Content)

unfoldable pub read_file : String → Disk → Option Content
read_file path [] = none
read_file path ((p, c) ∷ disk) = if same_text p path then some c else read_file path disk

unfoldable pub write_file : String → Content → Disk → Disk
write_file path c [] = (path, c) ∷ []
write_file path c ((p, d) ∷ disk) =
    let rest = write_file path c disk in if same_text p path then (p, c) ∷ disk else (p, d) ∷ rest

unfoldable pub remove_path : String → Disk → Disk
remove_path path [] = []
remove_path path ((p, c) ∷ disk) =
    let rest = remove_path path disk in if same_text p path then rest else (p, c) ∷ rest

-- `stat_fails`: `os.Stat` fails otherwise than by a missing file. The others are the errors of creating,
-- encoding and removing, if there is one.
pub record Os : Type 0 where
  pub stat_fails : String → Bool
  pub create : String → Option String
  pub encode : String → Option String
  pub remove : String → Option String

encoded : Os → String → KeyFile → Disk → Option String → Disk × Option String
unfolding write_file
encoded os file_name k disk (some e) = (write_file file_name other_content disk, some e)
encoded os file_name k disk none = (write_file file_name (key_file k) disk, none)

created : Os → String → KeyFile → Disk → Option String → Disk × Option String
unfolding encoded
created os file_name k disk (some e) = (disk, some e)
created os file_name k disk none = encoded os file_name k disk (os.encode file_name)

-- A file that is there, or that cannot be asked for, is left as it is.
unfoldable pub dump_json : Os → String → KeyFile → Disk → Disk × Option String
unfolding created read_file
dump_json os file_name k disk =
    if os.stat_fails file_name || is_some (read_file file_name disk)
    then (disk, some (Str.◌++◌ "file already exists: [" (Str.◌++◌ file_name "]")))
    else created os file_name k disk (os.create file_name)
