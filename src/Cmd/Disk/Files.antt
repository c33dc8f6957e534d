-- ===== src/Cmd/Disk/Files.antt =====
-- What writing and removing leave on the disk.
use Prim.Native.String as Str
use text.Mathlib.TextEquality.{eq_iff}
use relayer2_public.Base.{
  String, ◌≡◌, refl, inl, inr, Option, none, some, [], ◌∷◌, same_text, same_text_refl,
  if◌then◌else◌, arith, Bool-cases, Option-cases,
}
use relayer2_public.Cmd.Disk.{
  KeyFile, Content, key_file, other_content, Disk, read_file, write_file, remove_path, Os, encoded,
  created, dump_json,
}

pub read_file-write_file :
    (path q : String) (c : Content) (disk : Disk)
    → read_file q (write_file path c disk) ≡ (if same_text path q then some c else read_file q disk)
unfolding read_file write_file
read_file-write_file path q c [] = refl
read_file-write_file path q c ((p, d) ∷ disk) =
    ground (arith, eq_iff p path, eq_iff p q, eq_iff path q, read_file-write_file path q c disk)

pub read_file-remove_path :
    (path q : String) (disk : Disk)
    → read_file q (remove_path path disk) ≡ (if same_text path q then none else read_file q disk)
unfolding read_file remove_path
read_file-remove_path path q [] = ground arith
read_file-remove_path path q ((p, d) ∷ disk) =
    ground (arith, eq_iff p path, eq_iff p q, eq_iff path q, read_file-remove_path path q disk)

pub read_file-write_file_self :
    (path : String) (c : Content) (disk : Disk) → read_file path (write_file path c disk) ≡ some c
read_file-write_file_self path c disk =
    ground (arith, same_text_refl path, read_file-write_file path path c disk)

-- Each file of the first disk stands unchanged on the second.
abbrev pub Extends : Disk → Disk → Type 0
Extends disk disk' =
    (q : String) (c : Content) → read_file q disk ≡ some c → read_file q disk' ≡ some c

pub Extends-trans : (a b c : Disk) → Extends a b → Extends b c → Extends a c
Extends-trans a b c h k q x e = k q x (h q x e)

-- A file that is written where there was none.
pub write_file-Extends :
    (path : String) (c : Content) (disk : Disk)
    → read_file path disk ≡ none
    → Extends disk (write_file path c disk)
write_file-Extends path c disk free q x e =
    ground (arith, eq_iff path q, read_file-write_file path q c disk)

-- How `dumpJson` can end.
pub data Dumped (path : String) (k : KeyFile) (disk : Disk) : Disk × Option String → Type 0 where
  refused : (e : String) → Dumped path k disk (disk, some e)
  broken :
      (e : String)
      → read_file path disk ≡ none
      → Dumped path k disk (write_file path other_content disk, some e)
  stored : read_file path disk ≡ none → Dumped path k disk (write_file path (key_file k) disk, none)

module _ (os : Os) (path : String) (k : KeyFile) (disk : Disk)
    (free : read_file path disk ≡ none) where
  encoded-Dumped : (o : Option String) → Dumped path k disk (encoded os path k disk o)
  unfolding encoded
  encoded-Dumped (some e) = broken e free
  encoded-Dumped none = stored free

  created-Dumped : (o : Option String) → Dumped path k disk (created os path k disk o)
  unfolding created
  created-Dumped (some e) = refused e
  created-Dumped none = encoded-Dumped (os.encode path)

-- A key is put only where there is no file.
pub dump_json-Dumped :
    (os : Os) (path : String) (k : KeyFile) (disk : Disk)
    → Dumped path k disk (dump_json os path k disk)
unfolding dump_json
dump_json-Dumped os path k disk = elim (Bool-cases (os.stat_fails path)) [
  | inl fails ↦ rw fails (refused (Str.◌++◌ "file already exists: [" (Str.◌++◌ path "]")))
  | inr known ↦ elim (Option-cases (read_file path disk)) [
    | inl free ↦ rw (known, free) (created-Dumped os path k disk free (os.create path))
    | inr (c, there) ↦
        rw (known, there) (refused (Str.◌++◌ "file already exists: [" (Str.◌++◌ path "]")))
  ]
]

pub Dumped-Extends :
    (path : String) (k : KeyFile) (disk : Disk) {r : Disk × Option String}
    → Dumped path k disk r
    → Extends disk r.0
Dumped-Extends path k disk (refused e) = λ q c h. h
Dumped-Extends path k disk (broken e free) = write_file-Extends path other_content disk free
Dumped-Extends path k disk (stored free) = write_file-Extends path (key_file k) disk free
