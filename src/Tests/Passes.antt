-- ===== src/Tests/Passes.antt =====
-- Rewriting, and the passes on a function of two blocks.
use jank.Prelude.{
  arith, at, ℕ, true, false, List, [], ◌∷◌, map, some, ◌≡◌, ◌≢◌, refl, sym, Bytes, codes, contains,
  eq_bytes, eq_bytes_iff, false≢true, ◌∙◌, at,
}
use jank.Runtime.UniqueString.{fresh_name}
use jank.Runtime.Munge.{munge_byte}
use jank.Ir.Instruction.{
  Identifier, Instruction, Op, literal, ret, nop, case_, dynamic_call, jump, parameter,
  persistent_vector,
}
use jank.Ir.Function.{Block, Function, find_block, block_named}
use jank.Ir.Rewrite.{
  uses_name, rewrite_option, rewrite_each, rewrite_op, rewrite_instruction, rewrite_uses,
}
use jank.Ir.Walk.{references, op_references}
use jank.Ir.Walk.Uses.{references-uses_name}
use jank.Ir.Walk.Rename.{rename, references-rewrite_instruction, rewrite_instruction_misses}
use mathlib.Core.Path.{subst}
use jank.Ir.Dominance.{DominanceMap, RpoIndexMap, climb, lcd, lcd_all}
use jank.Ir.Dominance.Lcd.{Node, IsDominatorTree}
use jank.Ir.Dominance.Rpo.Resolve.{is_named}
use jank.Ir.Opt.Hoist.Canonical.{Holds}
use jank.Ir.Opt.Hoist.Group.{Hoisted, hoist_group-Hoisted}
use jank.Ir.Opt.RemoveNops.{remove_nops, without_nops, remove_nops-without_nops}
use jank.Ir.Opt.Hoist.{Pass, Occurrence, replace_duplicates, find_instruction, is_literal}
use jank.Ir.Opt.Hoist.Present.{is_present, has_instruction}
use jank.Ir.Opt.Hoist.Duplicates.{Replaced, replace_duplicates-Replaced}
use jank.Ir.Opt.HoistLiterals.{hoist_literals}

abbrev inst : Bytes → Op → Instruction
inst name op = record { name = name; type = 1; location = 0; op = op }

abbrev x1 : Identifier
x1 = codes "x1"

abbrev x2 : Identifier
x2 = codes "x2"

x1-ne-x2 : x1 ≢ x2
x1-ne-x2 e = false≢true (sym differ ∙ (eq_bytes_iff x1 x2).1 e)
  where
    differ : eq_bytes x1 x2 ≡ false
    differ = unfold eq_bytes in refl

-- The literal 7 in two blocks.
abbrev entry : Block
entry = record {
  index = 0;
  name = codes "entry";
  instructions =
      inst (codes "p") parameter
      ∷ inst x1 (literal 7 (codes "seven"))
      ∷ inst (codes "j") (jump (codes "next") false)
      ∷ [];
}

abbrev next : Block
next = record {
  index = 1;
  name = codes "next";
  instructions =
      inst x2 (literal 7 (codes "seven"))
      ∷ inst (codes "v") (persistent_vector (x2 ∷ x1 ∷ []) 0)
      ∷ inst (codes "r") (ret x2)
      ∷ [];
}

abbrev fn : Function
fn = record {
  name = codes "f";
  blocks = entry ∷ next ∷ [];
  immediate_dominators = (codes "entry", codes "entry") ∷ (codes "next", codes "entry") ∷ [];
  rpo = codes "entry" ∷ codes "next" ∷ [];
  block_rpo_index = (codes "entry", 0) ∷ (codes "next", 1) ∷ [];
}

abbrev next_hoisted : Block
next_hoisted = record {
  index = 1;
  name = codes "next";
  instructions =
      record { name = codes "G__1"; type = 5; location = 6; op = nop }
      ∷ inst (codes "v") (persistent_vector (x1 ∷ x1 ∷ []) 0)
      ∷ inst (codes "r") (ret x1)
      ∷ [];
}

-- The literal of the second block goes, and its uses turn to that of the first.
hoist_literals_runs :
    hoist_literals (λ a b. eq_bytes (a ∷ []) (b ∷ [])) 5 6 fn 0
    ≡ some (record fn { blocks = entry ∷ next_hoisted ∷ [] }, 1)
unfolding hoist_literals eq_bytes at lcd climb lcd_all find_block block_named rewrite_uses
    fresh_name munge_byte rewrite_option rewrite_each rewrite_instruction contains
    replace_duplicates rewrite_op
hoist_literals_runs = refl

call : Instruction
call = inst (codes "c") (dynamic_call x1 (x2 ∷ []))

references-rewrite_instruction_example :
    references (rewrite_instruction x2 x1 call).value ≡ map (rename x2 x1) (references call)
unfolding call
references-rewrite_instruction_example = references-rewrite_instruction x2 x1 call tt

references-uses_name_example : uses_name call.op x2 ≡ true
unfolding call
references-uses_name_example =
    references-uses_name x2 call tt (unfold references op_references contains eq_bytes in refl)

abbrev case_on_x2 : Instruction
case_on_x2 = inst (codes "k") (case_ 0 1 x2 [] (codes "d") (codes "m"))

rewrite_instruction_misses_example :
    contains (references (rewrite_instruction x2 x1 case_on_x2).value) x2 ≡ true
rewrite_instruction_misses_example = rewrite_instruction_misses x2 x1 case_on_x2 refl

remove_nops-without_nops_example :
    remove_nops (next_hoisted ∷ []) ≡ map without_nops (next_hoisted ∷ [])
remove_nops-without_nops_example = remove_nops-without_nops (next_hoisted ∷ [])

abbrev sevens : List Occurrence
sevens = (codes "entry", x1) ∷ (codes "next", x2) ∷ []

abbrev start : Pass
start = record { blocks = entry ∷ next ∷ []; symbol_counter = 0 }

replace_duplicates-Replaced_example : Replaced 5 6 x1 sevens start
replace_duplicates-Replaced_example =
    replace_duplicates-Replaced 5 6 x1 sevens start
      (
        unfold is_present has_instruction eq_bytes in refl,
        (unfold is_present has_instruction eq_bytes in refl, tt),
      )
      ((λ e. x1-ne-x2 (sym e), tt), (tt, tt))

abbrev idom : DominanceMap
idom = fn.immediate_dominators

abbrev rpo_index : RpoIndexMap
rpo_index = fn.block_rpo_index

abbrev entry_name : Identifier
entry_name = codes "entry"

abbrev next_name : Identifier
next_name = codes "next"

root : (x y : Identifier) → at rpo_index x ≡ some 0 → at idom x ≡ some y → x ≡ y
unfolding at
root x y p q = ground (arith, p, q, eq_bytes_iff entry_name x, eq_bytes_iff next_name x)

-- Both blocks have the entry as their dominator.
idom-entry : (x y : Identifier) → at idom x ≡ some y → entry_name ≡ y
unfolding at
idom-entry x y p = ground arith

unique : (x y : Identifier) (n : ℕ) → at rpo_index x ≡ some n → at rpo_index y ≡ some n → x ≡ y
unfolding at
unique x y n p q = ground (
  arith,
  p,
  q,
  eq_bytes_iff entry_name x,
  eq_bytes_iff next_name x,
  eq_bytes_iff entry_name y,
  eq_bytes_iff next_name y,
)

entry-Node : Node idom rpo_index entry_name 0
entry-Node = record {
  parent = entry_name;
  has_parent = unfold at eq_bytes in refl;
  has_index = unfold at eq_bytes in refl;
}

next-Node : Node idom rpo_index next_name 1
next-Node = record {
  parent = entry_name;
  has_parent = unfold at eq_bytes in refl;
  has_index = unfold at eq_bytes in refl;
}

fn-IsDominatorTree : IsDominatorTree idom rpo_index
fn-IsDominatorTree = record {
  root = root;
  climbs =
      λ x y n p q lt. (0, lt, subst (λ z. Node idom rpo_index z 0) (idom-entry x y p) entry-Node);
  unique = unique;
}

fn_named : (x : Identifier) (n : ℕ) → Node idom rpo_index x n → is_named start.blocks x ≡ true
unfolding at is_named
fn_named x n v = ground (arith, v.has_index)

entry-Holds : Holds is_literal start.blocks (codes "entry", x1)
entry-Holds = record {
  block = entry;
  existing = inst x1 (literal 7 (codes "seven"));
  has_block = unfold block_named eq_bytes in refl;
  has_existing = unfold find_instruction eq_bytes in refl;
  of_kind = unfold is_literal in refl;
}

hoist_group-Hoisted_example : Hoisted is_literal 5 6 idom rpo_index sevens start
hoist_group-Hoisted_example =
    hoist_group-Hoisted is_literal 5 6 idom rpo_index (codes "entry", x1) (codes "next", x2) []
      start fn-IsDominatorTree fn_named
      ((0, omega arith, entry-Node), ((1, omega arith, next-Node), tt)) entry-Holds
      (
        unfold is_present has_instruction eq_bytes in refl,
        (unfold is_present has_instruction eq_bytes in refl, tt),
      )
      ((λ e. x1-ne-x2 (sym e), tt), (tt, tt))
