-- ===== src/Cmdline.antt =====
-- agent/internal/cmdline/cmdline.go: the fog parameters of the kernel command line.
pub mod Printed
use fos_next.Prelude.{Bool, false, ◌||◌, List, [], ◌∷◌, Bytes, codes, if◌then◌else◌}
use fos_next.Strings.{equal, equal_fold, fields, cut, trim_space}
use fos_next.World.{read_file, Env, Act, pure, ◌>>=◌, try}

pub record Params : Type 0 where
  pub fog_server : Bytes
  pub fog_action : Bytes
  pub fog_host : Bytes
  pub fog_debug : Bool

abbrev pub no_params : Params
no_params = record { fog_server = []; fog_action = []; fog_host = []; fog_debug = false }

-- the value of `fog_debug`
unfoldable pub is_on : Bytes → Bool
is_on v = equal v (codes "1") || equal_fold v (codes "true")

-- the `switch k` of the loop
unfoldable pub assign : Bytes → Bytes → Params → Params
assign k v p =
    if equal k (codes "fog_server")
    then record p { fog_server = v }
    else if equal k (codes "fog_action")
    then record p { fog_action = v }
    else if equal k (codes "fog_host")
    then record p { fog_host = v }
    else if equal k (codes "fog_debug")
    then record p { fog_debug = is_on v }
    else p

unfoldable pub assign_all : List Bytes → Params → Params
assign_all [] p = p
assign_all (tok ∷ toks) p = let (k, v, _) = cut tok b'=' in assign_all toks (assign k v p)

-- `ParseString`
unfoldable pub parse_string : Bytes → Params
parse_string line = assign_all (fields line) no_params

-- `Parse`
unfoldable pub parse : Env → Act Params
parse env = do
  raw ← try env (read_file (codes "/proc/cmdline"))
  pure (parse_string (trim_space raw))
