-- ===== src/PluginHost/Trust/Digest.antt =====
-- computePluginDigest of packages/plugin-host/src/trust.ts over the files of a directory. The file
-- system gives the tree of a directory, or nothing where reading it throws; the hash function is a
-- parameter as well. A text is what the hash is given, as code points.
use prime_system.Base.{
  Text, codes, Bool, true, false, ◌&&◌, ◌||◌, List, [], ◌∷◌, ◌++◌, Option, none, some,
  if◌then◌else◌, eqb, same_text, text_lt,
}
use prime_system.Base.Sorting.{sort}
use prime_system.PluginHost.Events.{is_space}

mutual
  -- A file with its text, a symbolic link with its own text, or a directory.
  pub data Node : Type 0 where
    file link : Text → Node
    directory : Entries → Node

  pub data Entries : Type 0 where
    no_entries : Entries
    entry : (name : Text) → Node → Entries → Entries

-- A file by its path under the root; `shown` is the path with "/" between its parts.
pub record PluginFile : Type 0 where
  pub rel : Text
  pub shown : Text
  pub node : Node

abbrev is_skipped : Text → Bool
is_skipped name = same_text name (codes "node_modules") || same_text name (codes ".git")

abbrev starts : Text → Text → Bool
starts [] t = true
starts (c ∷ cs) [] = false
starts (c ∷ cs) (d ∷ t) = eqb c d && starts cs t

abbrev after_prefix : Text → Text → Text
after_prefix [] t = t
after_prefix (c ∷ cs) [] = []
after_prefix (c ∷ cs) (d ∷ t) = after_prefix cs t

abbrev skip_spaces : Text → Text
skip_spaces [] = []
skip_spaces (c ∷ cs) = let rest = skip_spaces cs in if is_space c then rest else c ∷ cs

abbrev starts_space : Text → Bool
starts_space [] = false
starts_space (c ∷ cs) = is_space c

-- `/^signature\s*:/`
abbrev is_signature_line : Text → Bool
is_signature_line line =
    starts (codes "signature") line
    && starts (b':' ∷ []) (skip_spaces (after_prefix (codes "signature") line))

-- `split("\n")`
abbrev split_lines : Text → Text → List Text
split_lines line [] = line ∷ []
split_lines line (c ∷ cs) =
    let closed = line ∷ split_lines [] cs in
    let longer = split_lines (line ++ c ∷ []) cs in if eqb c 10 then closed else longer

abbrev join_lines : List Text → Text
join_lines [] = []
join_lines (line ∷ []) = line
join_lines (line ∷ next ∷ lines) = line ++ 10 ∷ join_lines (next ∷ lines)

abbrev keep_lines : Bool → List Text → List Text
keep_lines skipping [] = []
keep_lines skipping (line ∷ lines) =
    let skipped = keep_lines true lines in
    let kept = line ∷ keep_lines false lines in
    if is_signature_line line
    then skipped
    else if skipping && starts_space line
    then skipped
    else kept

-- `stripSignatureBlock`
unfoldable pub strip_signature_block : Text → Text
strip_signature_block source = join_lines (keep_lines false (split_lines [] source))

abbrev under : Text → Text → Text → Text
under separator [] name = name
under separator (c ∷ cs) name = (c ∷ cs) ++ (separator ++ name)

abbrev file_lt : PluginFile → PluginFile → Bool
file_lt a b = text_lt a.rel b.rel

-- The order in which a directory is read is of no effect, since the files are sorted at the end.
walk : Text → Text → Text → Entries → List PluginFile
walk separator rel shown no_entries = []
walk separator rel shown (entry name (directory listed) more) =
    let inner = walk separator (under separator rel name) (under (b'/' ∷ []) shown name) listed in
    let rest = walk separator rel shown more in if is_skipped name then rest else inner ++ rest
walk separator rel shown (entry name node more) =
    record { rel = under separator rel name; shown = under (b'/' ∷ []) shown name; node = node }
    ∷ walk separator rel shown more

-- `pluginFiles`
unfoldable pub plugin_files : Text → Entries → List PluginFile
unfolding walk
plugin_files separator listed = sort file_lt (walk separator [] [] listed)

abbrev node_text : Text → Node → Text
node_text rel (link text) = codes "symlink" ++ 0 ∷ text
node_text rel (file text) =
    if same_text rel (codes "prime-plugin.yaml") then strip_signature_block text else text
node_text rel (directory listed) = []

-- What the hash is updated with, file by file.
unfoldable pub hashed_text : List PluginFile → Text
hashed_text [] = []
hashed_text (f ∷ fs) = f.shown ++ 0 ∷ (node_text f.rel f.node ++ 0 ∷ hashed_text fs)

abbrev named_digest : Text → Option Text → Option Text
named_digest algorithm none = none
named_digest algorithm (some hex) = some (algorithm ++ b':' ∷ hex)

-- `computePluginDigest`; `none` is what throws: a directory that is not read, or an algorithm that
-- the hash function does not know.
unfoldable pub compute_plugin_digest :
    Text → (Text → Option Entries) → (Text → Text → Option Text) → Text → Text → Option Text
compute_plugin_digest separator read_tree hash root algorithm = elim (read_tree root) [
  | none ↦ none
  | some listed ↦
      named_digest algorithm (hash algorithm (hashed_text (plugin_files separator listed)))
]
