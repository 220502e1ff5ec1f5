-- ===== src/Loader/Locals.antt =====
-- The local variables of a function in the code section (`decode_func_section` of
-- src/deep_loader.c).
use deepvm.Base.{
  ℕ, zero, suc, ◌+◌, ◌-◌, ◌%◌, ◌^◌, Option, none, some, List, [], ◌∷◌, ◌++◌, err, undefined, length,
  ltb, ◌==◌, if◌then◌else◌, u32,
}
use deepvm.Leb.{read_leb_u32}
use deepvm.Vm.State.{FuncType, read_byte}
use deepvm.Loader.Reader.{Reader, return, ◌>>=◌, repeat}

-- `LocalVarCluster`
pub record LocalVarCluster : Type 0 where
  pub count : ℕ
  pub local_type : ℕ

-- The types of the variables, one for each.
unfoldable pub replicate : ℕ → ℕ → List ℕ
replicate zero t = []
replicate (suc n) t = t ∷ replicate n t

unfoldable pub variable_types : List LocalVarCluster → List ℕ
variable_types [] = []
variable_types (c ∷ cs) = replicate c.count c.local_type ++ variable_types cs

unfoldable pub read_cluster : Reader LocalVarCluster
read_cluster = do
  count ← read_leb_u32
  local_type ← read_byte
  return (record { count = count; local_type = local_type })

-- The variables that are no parameters. `local_set_count` starts at the byte `local_var_count`;
-- with fewer sets than parameters the array of clusters is written past its end.
unfoldable pub read_clusters : ℕ → Reader (Option (List LocalVarCluster))
read_clusters param_count = do sets ← read_leb_u32; clusters_of (u32 (param_count % 2 ^ 8 + sets))
  where
    clusters_of : ℕ → Reader (Option (List LocalVarCluster))
    clusters_of local_set_count =
        if local_set_count == 0
        then return none
        else if ltb local_set_count param_count
        then (λ p. err undefined)
        else do
          clusters ← repeat (local_set_count - param_count) read_cluster
          return (some clusters)

-- The variables of a function, parameters first. With `local_set_count` 0 there are none.
unfoldable pub all_variables : FuncType → Option (List LocalVarCluster) → List ℕ
all_variables type none = []
all_variables type (some clusters) = type.params ++ variable_types clusters

-- The parameters and the other variables together, in a byte.
unfoldable pub local_var_count : FuncType → Option (List LocalVarCluster) → ℕ
local_var_count type none = length type.params % 2 ^ 8
local_var_count type (some clusters) =
    (length type.params + length (variable_types clusters)) % 2 ^ 8
