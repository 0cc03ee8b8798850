-- ===== src/Tests/Env.antt =====
-- Blocks, registry keys and references such as a Windows machine has.
use termcp_relay.Prelude.{
  ◌≡◌, refl, ◌↔◌, Bool, true, false, not, List, [], ◌∷◌, ◌++◌, map, none, some, arith, subst, Text,
  codes, is_some, keep, All, length,
}
use termcp_relay.Strings.{Lacks, ascii, to_lower}
use termcp_relay.Dict.{member}
use termcp_relay.Env.Path.{merged_entries, merge_path}
use termcp_relay.Env.Path.Laws.{merged_entries_clean, IsEntry, Distinct, IsKept}
use termcp_relay.Env.Path.Fresh.{parts_of}
use termcp_relay.Env.Path.Order.{merged_entries_order}
use termcp_relay.Env.Replace.{replace_env, is_entry_of, new_entry}
use termcp_relay.Env.Replace.Laws.{replace_env_entries}
use termcp_relay.Env.Lookup.{EnvLookup, get, new_env_lookup}
use termcp_relay.Env.Expand.{expand_percent}
use termcp_relay.Env.Expand.Laws.{Expands, expand_percent-Expands}
use termcp_relay.Env.Layer.{EnvValue, EnvEntry}
use termcp_relay.Env.Compose.State.{DistinctKeys, block_keys, env_get}
use termcp_relay.Env.Compose.{compose_env}
use termcp_relay.Env.Compose.Laws.{session_value, last_base}
use termcp_relay.Env.Compose.Block.{AreNamed, env_get-compose_env}
use termcp_relay.Env.Session.{RegistryKey, session_env}
use termcp_relay.Env.Session.Laws.{HasPlainNames, session_env-DistinctKeys}
use termcp_relay.Env.Session.Layers.{Layers, session_env_lem}

abbrev machine_path : Text
machine_path = codes "C:\\Windows; C:\\Tools;;C:\\WINDOWS"

abbrev user_path : Text
user_path = codes "c:\\tools;C:\\Me"

merge_path_run :
    merge_path b';' (machine_path ∷ user_path ∷ []) ≡ codes "C:\\Windows;C:\\Tools;C:\\Me"
unfolding merge_path merged_entries
merge_path_run = refl

merged_entries_clean_example :
    let out = merged_entries b';' (machine_path ∷ user_path ∷ []) in
    All (IsEntry b';') out
    × Distinct out
    × All (IsKept out) (parts_of b';' (machine_path ∷ user_path ∷ []))
merged_entries_clean_example = merged_entries_clean b';' (machine_path ∷ user_path ∷ [])

merged_entries_order_example :
    merged_entries b';' (machine_path ∷ user_path ∷ [])
    ≡ merged_entries b';' (machine_path ∷ [])
      ++ keep
          (λ p. not (member (to_lower p) (map to_lower (merged_entries b';' (machine_path ∷ [])))))
          (merged_entries b';' (user_path ∷ []))
merged_entries_order_example = merged_entries_order b';' machine_path user_path

abbrev block : List Text
block = codes "A=1" ∷ codes "Term=dumb" ∷ codes "B=2" ∷ codes "TERM=vt100" ∷ []

abbrev term : Text
term = codes "TERM"

abbrev xterm : Text
xterm = codes "xterm"

replace_env_entries_example :
    (keep (λ kv. not (is_entry_of term kv)) (replace_env block term xterm)
      ≡ keep (λ kv. not (is_entry_of term kv)) block)
    × (keep (is_entry_of term) (replace_env block term xterm) ≡ new_entry term xterm ∷ [])
replace_env_entries_example = replace_env_entries block term xterm

abbrev table : EnvLookup
table = new_env_lookup (codes "HOME=C:\\Me" ∷ codes "SELF=%SELF%" ∷ [])

expand_percent_run :
    expand_percent table (codes "%home%\\bin;%SELF%;%NO%;50%") ≡ codes "C:\\Me\\bin;%SELF%;%NO%;50%"
unfolding expand_percent new_env_lookup get
expand_percent_run = refl

expand_percent-Expands_example :
    (expand_percent table (codes "%home%\\bin") ≡ codes "C:\\Me\\bin")
    ↔ Expands table (codes "%home%\\bin") (codes "C:\\Me\\bin")
expand_percent-Expands_example =
    expand_percent-Expands table (codes "%home%\\bin") (codes "C:\\Me\\bin")

abbrev variable : Text → Text → Bool → EnvValue
variable name value expandable = record { name = name; value = value; expandable = expandable }

abbrev home_values : List EnvValue
home_values =
    variable (codes "TOOLS") (codes "%HOME%\\bin") true
    ∷ variable (codes "Home") (codes "D:\\") false
    ∷ []

abbrev entry : Text → Text → EnvEntry
entry name value = record { name = name; value = value }

abbrev machine_entries : List EnvEntry
machine_entries = entry (codes "Path") machine_path ∷ entry (codes "A") (codes "2") ∷ []

abbrev user_entries : List EnvEntry
user_entries = entry (codes "PATH") user_path ∷ []

abbrev pub inherited : List Text
inherited = codes "PATH=C:\\Old" ∷ codes "a=1" ∷ []

path-Lacks : Lacks b'=' (codes "Path")
path-Lacks =
    ((λ e. ground arith), ((λ e. ground arith), ((λ e. ground arith), ((λ e. ground arith), tt))))

capitals-Lacks : Lacks b'=' (codes "PATH")
capitals-Lacks =
    ((λ e. ground arith), ((λ e. ground arith), ((λ e. ground arith), ((λ e. ground arith), tt))))

machine_entries-AreNamed : AreNamed machine_entries
machine_entries-AreNamed = (
  record { full = refl; single = path-Lacks },
  (record { full = refl; single = ((λ e. ground arith), tt) }, tt),
)

user_entries-AreNamed : AreNamed user_entries
user_entries-AreNamed = (record { full = refl; single = capitals-Lacks }, tt)

compose_env_run :
    compose_env b';' inherited machine_entries user_entries
    ≡ codes "PATH=C:\\Windows;C:\\Tools;C:\\Me" ∷ codes "A=2" ∷ []
unfolding compose_env
compose_env_run = refl

env_get-compose_env_example :
    env_get (codes "Path") (compose_env b';' inherited machine_entries user_entries)
    ≡ session_value b';' inherited machine_entries user_entries (codes "Path")
env_get-compose_env_example =
    env_get-compose_env b';' inherited machine_entries user_entries (codes "Path")
      machine_entries-AreNamed user_entries-AreNamed

abbrev pub registry_key : RegistryKey
registry_key = record {
  value_names = some (codes "A" ∷ []);
  get_string_value = λ name. some (codes "%a%;2", true);
}

pub registry_key-HasPlainNames : HasPlainNames (some registry_key)
registry_key-HasPlainNames names e =
    let same : codes "A" ∷ [] ≡ names = ground arith in
    subst (All (Lacks b'=')) same (((λ e. ground arith), tt), tt)

session_env_run :
    session_env b';' inherited (some registry_key) none ≡ codes "PATH=C:\\Old" ∷ codes "A=1;2" ∷ []
unfolding session_env
session_env_run = refl

session_env_lem_example :
    (l : Layers inherited (some registry_key) none) × ((name : Text)
      → let block = session_env b';' inherited (some registry_key) none in
        (env_get name block ≡ session_value b';' inherited l.machine l.user name)
        × (is_some (last_base name inherited) ≡ true → is_some (env_get name block) ≡ true))
session_env_lem_example =
    session_env_lem b';' inherited (some registry_key) none registry_key-HasPlainNames tt

session_env-DistinctKeys_example :
    let block = session_env b';' inherited (some registry_key) none in
    DistinctKeys (block_keys block) × (length (block_keys block) ≡ length block)
session_env-DistinctKeys_example =
    session_env-DistinctKeys b';' inherited (some registry_key) none registry_key-HasPlainNames tt
