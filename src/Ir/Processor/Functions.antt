-- ===== src/Ir/Processor/Functions.antt =====
-- What `gen_arity` does around a function's body, and references to functions:
-- compiler+runtime/src/cpp/jank/ir/processor.cpp.
use jank.Prelude.{
  ℕ, ◌-◌, true, false, List, [], ◌∷◌, ◌++◌, Option, none, some, if◌then◌else◌, length, set,
  get_elem?, Bytes, codes, leb, ◌==◌, put,
}
use jank.Runtime.Munge.{munge}
use jank.Runtime.UniqueString.{decimal}
use jank.Analyze.Expr.{Position, value_, FunctionContext, ArityInfo}
use jank.Ir.Instruction.{Identifier, Handle, Instruction, Op, TypedIdentifier, BindingShadow}
use jank.Ir.Function.{Function, add_block, remove_block}
use jank.Ir.Builder.{
  Builder, M, pure, ◌>>=◌, ◌>>◌, unwrap, gets, modify, next_shadow, block_name, enter_block,
}
use jank.Ir.Builder.Emit.{Host, return_tail}
use jank.Ir.Builder.Values.{parameter, capture}
use jank.Ir.Builder.Control.{
  jump, branch_set, branch_get, loop, recursion_reference, named_recursion,
}
use jank.Ir.Processor.{
  yields, is_terminated, new_block, bind_local, local_at, shadow_at, bind_shadow,
  gen_local_reference,
}

-- The blocks behind a body that calls `recur`.
pub record RecurBlocks : Type 0 where
  pub recur_shadow : Identifier
  pub merge_blk : ℕ

unfoldable pub arity_name : Bytes → ArityInfo → Identifier
arity_name unique_name a = munge (unique_name ++ (codes "_" ++ decimal (length a.params)))

-- `static_cast<inst::loop &>(*fn->blocks[0].instructions.back()).merge_block = none`
unfoldable pub clear_last_merge : List Instruction → Option (List Instruction)
clear_last_merge [] = none
clear_last_merge (i ∷ []) = elim i.op [
  | Op.loop loop_block merge_block shadow shadows ↦
      some (record i { op = Op.loop loop_block none shadow shadows } ∷ [])
  | _ ↦ none
]
clear_last_merge (i ∷ j ∷ is) = elim (clear_last_merge (j ∷ is)) [
  | none ↦ none
  | some is' ↦ some (i ∷ is')
]

unfoldable pub clear_merge : M (Unit {0})
unfolding clear_last_merge
clear_merge b = elim b.blocks [
  | [] ↦ none
  | blk ∷ blks ↦ elim (clear_last_merge blk.instructions) [
    | none ↦ none
    | some is ↦ some (tt, record b { blocks = record blk { instructions = is } ∷ blks })
  ]
]

-- The removal of the merge block, and the correction of the current index.
unfoldable pub remove_merge : ℕ → M (Unit {0})
unfolding remove_block
remove_merge merge_blk b = elim (remove_block b.blocks merge_blk) [
  | none ↦ none
  | some blocks' ↦ some (
    tt,
    record b {
      blocks = blocks';
      block_index = if leb merge_blk b.block_index then b.block_index - 1 else b.block_index;
    },
  )
]

-- The builder of a new function at the end of the module.
unfoldable pub start_arity : Handle → Identifier → ArityInfo → Builder → Builder
unfolding add_block
start_arity unknown name a b =
    let (entry, index) = add_block (codes "entry") [] in
    let fn : Function = record {
      name = name;
      blocks = entry;
      immediate_dominators = [];
      rpo = [];
      block_rpo_index = [];
    } in
    record {
      mod_ = record b.mod_ { functions = b.mod_.functions ++ (fn ∷ []) };
      fn_index = length b.mod_.functions;
      params = a.params;
      fn_ctx = a.fn_ctx.id;
      blocks = entry;
      block_index = 0;
      ident_count = 0;
      locals = [];
      local_to_loop_shadow = [];
      allowed_defers = [];
      used_identifiers = [];
      loop_recur_target = none;
      fn_recur_target = none;
      location = unknown;
      symbol_counter = b.symbol_counter;
    }

-- The complete function's blocks go to the module, and the builder around it is used again.
unfoldable pub finish_arity : Builder → Builder → Builder
finish_arity b c = record b {
  mod_ = record c.mod_ {
    functions = elim (get_elem? c.mod_.functions c.fn_index) [
      | none ↦ c.mod_.functions
      | some fn ↦ set c.mod_.functions c.fn_index (record fn { blocks = c.blocks })
    ];
  };
  symbol_counter = c.symbol_counter;
}

module _ (host : Host) where
  -- `parameter` munges the munged name again.
  unfoldable pub gen_params : List Bytes → M (Unit {0})
  unfolding parameter bind_local
  gen_params [] = pure tt
  gen_params (param ∷ params) = do
    let name = munge param
    value ← parameter host value_ (munge name)
    bind_local name value
    gen_params params

  unfoldable pub gen_captures : List (Bytes × Handle) → M (Unit {0})
  unfolding capture bind_local
  gen_captures [] = pure tt
  gen_captures ((symbol, type) ∷ captures) = do
    let name = munge symbol
    value ← capture host value_ type name
    bind_local name value
    gen_captures captures

  unfoldable pub param_shadows : List Bytes → M (List BindingShadow)
  unfolding next_shadow bind_shadow local_at
  param_shadows [] = pure []
  param_shadows (param ∷ params) = do
    shadow ← next_shadow
    let name = munge param
    bind_shadow name shadow
    value ← local_at name
    shadows ← param_shadows params
    pure (record { name = shadow; value = value; type = host.untyped_object_ref_type } ∷ shadows)

  unfoldable pub read_params : List Bytes → M (Unit {0})
  unfolding shadow_at branch_get bind_local
  read_params [] = pure tt
  read_params (param ∷ params) = do
    let name = munge param
    shadow ← shadow_at name
    value ← branch_get host shadow host.untyped_object_ref_type
    bind_local name value
    read_params params

  unfoldable pub open_recur : List Bytes → M RecurBlocks
  unfolding next_shadow param_shadows new_block block_name loop enter_block read_params
  open_recur params = do
    recur_shadow ← next_shadow
    shadows ← param_shadows params
    recur_blk ← new_block (codes "recur")
    modify λ b. record b { fn_recur_target = some recur_blk }
    merge_blk ← new_block (codes "recur-merge")
    recur_name ← block_name recur_blk
    merge_name ← block_name merge_blk
    let shadow : TypedIdentifier = record {
      name = recur_shadow;
      type = host.untyped_object_ref_type;
    }
    _ ← loop host recur_name (some merge_name) (some shadow) shadows
    enter_block recur_blk
    read_params params
    pure (record { recur_shadow = recur_shadow; merge_blk = merge_blk })

  unfoldable pub close_recur : List Bytes → RecurBlocks → Option Identifier → M (Unit {0})
  unfolding is_terminated remove_merge clear_merge branch_set jump enter_block read_params
  close_recur params r body_res = do
    terminated ← is_terminated
    elim terminated [
      | true ↦ (do remove_merge r.merge_blk; clear_merge)
      | false ↦ (do
        value ← unwrap body_res
        _ ← branch_set host r.recur_shadow value
        _ ← jump host r.merge_blk
        enter_block r.merge_blk
        read_params params)
    ]

  -- The function that surrounds is looked up by its name as written.
  unfoldable pub gen_recursion_reference :
      Position → Handle → FunctionContext → M (Option Identifier)
  unfolding local_at return_tail recursion_reference yields
  gen_recursion_reference pos type ctx = do
    fn_ctx ← gets λ b. b.fn_ctx
    elim (ctx.id == fn_ctx) [
      | true ↦ yields (recursion_reference host pos)
      | false ↦ (do name ← local_at ctx.name; yields (return_tail pos name type))
    ]

  unfoldable pub gen_named_recursion :
      Position → FunctionContext → List Identifier → M (Option Identifier)
  unfolding local_at named_recursion yields
  gen_named_recursion pos ctx arg_idents = do
    fn_ctx ← gets λ b. b.fn_ctx
    fn ← elim (ctx.id == fn_ctx) [
      | true ↦ pure (munge ctx.name)
      | false ↦ (do name ← local_at (munge ctx.name); pure (munge name))
    ]
    yields (named_recursion host pos fn (munge ctx.fn_unique_name) arg_idents ctx.fn_is_variadic)

  -- The captured locals of a closure, in value position.
  unfoldable pub capture_locals :
      List (Bytes × TypedIdentifier) → List (Bytes × Handle) → M (List (Bytes × TypedIdentifier))
  unfolding gen_local_reference
  capture_locals captured [] = pure captured
  capture_locals captured ((symbol, type) ∷ captures) = do
    res ← gen_local_reference value_ type symbol
    value ← unwrap res
    let ident : TypedIdentifier = record { name = value; type = host.mutable_type type }
    capture_locals (put captured (munge symbol) ident) captures
