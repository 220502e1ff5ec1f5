-- ===== src/Loader/List.antt =====
-- The linked list of the sections: `create_section_list` of src/deep_loader.c. A node is known by
-- its number, in the order in which the nodes are allocated.
use deepvm.Base.{
  ℕ, zero, suc, ◌+◌, ◌-◌, ◌^◌, Option, none, some, List, [], ◌∷◌, ◌++◌, Result, ok, err, undefined,
  out_of_fuel, ◌>>=◌, length, get_elem?, set, drop, leb, ltb, ◌==◌, if◌then◌else◌,
}
use deepvm.Leb.{Ptr, read_leb_u32}
use deepvm.Vm.State.{read_byte}

-- `section_listnode`, less `section_size`, which nothing reads.
pub record Node : Type 0 where
  pub section_type : ℕ
  pub section_begin : Ptr
  pub next : Option ℕ

-- `node->next = target`
unfoldable pub set_next : List Node → ℕ → ℕ → List Node
set_next nodes i target = elim (get_elem? nodes i) [
  | none ↦ nodes
  | some node ↦ set nodes i (record node { next = some target })
]

-- The node just allocated is linked behind the one before it. The first one is then the current
-- one, and is linked behind itself. Memory comes filled with zeros, so its own `next` is NULL.
unfoldable pub append_section : List Node → ℕ → Ptr → List Node
append_section nodes type begin =
    let section = length nodes in
    let current_section = (if section == 0 then section else section - 1) in
    set_next (nodes ++ (record { section_type = type; section_begin = begin; next = none } ∷ []))
      current_section section

-- `while (buf < buf_end)` with `left` bytes to `buf_end`. `none` is the NULL of a section that
-- goes beyond the end. A `section_size` that is negative moves the pointer out of the buffer.
unfoldable pub section_loop : ℕ → ℕ → Ptr → List Node → Result (Option (List Node))
section_loop fuel zero buf nodes = ok (some nodes)
section_loop zero (suc left) buf nodes = err out_of_fuel
section_loop (suc fuel) (suc left) buf nodes = do
  (section_type, buf1) ← read_byte buf
  (section_size, section_begin) ← read_leb_u32 buf1
  let rest =
      section_loop fuel (suc left - (length buf - length section_begin + section_size))
        (drop section_size section_begin) (append_section nodes section_type section_begin)
  if ltb section_size (2 ^ 31)
      then (if leb (length buf - length section_begin + section_size) (suc left)
          then (if leb section_size (length section_begin) then rest else err undefined)
          else ok none)
      else err undefined

-- A round passes over a byte at least. With no section at all the list is NULL too.
unfoldable pub create_section_list : Ptr → ℕ → Result (Option (List Node))
create_section_list p size = do
  list ← section_loop size size p []
  elim list [ none ↦ ok none | some [] ↦ ok none | some (node ∷ nodes) ↦ ok (some (node ∷ nodes)) ]
