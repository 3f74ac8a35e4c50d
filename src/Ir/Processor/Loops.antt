-- ===== src/Ir/Processor/Loops.antt =====
-- The loops of `let` and `recur`: compiler+runtime/src/cpp/jank/ir/processor.cpp.
use jank.Prelude.{
  ℕ, Bool, true, false, List, [], ◌∷◌, Option, none, some, if◌then◌else◌, Bytes, codes, eq_bytes,
}
use jank.Runtime.Munge.{munge}
use jank.Analyze.Expr.{Position, value_, tail_, Node}
use jank.Ir.Instruction.{Identifier, Handle, BindingShadow}
use jank.Ir.Builder.{
  M, pure, ◌>>=◌, ◌>>◌, unwrap, gets, modify, next_shadow, block_name, discard_block, enter_block,
}
use jank.Ir.Builder.Emit.{Host}
use jank.Ir.Builder.Values.{local, type_erase}
use jank.Ir.Builder.Control.{jump_to, branch_set, branch_get, loop, cpp_scope_close}
use jank.Ir.Processor.{
  yields, new_block, bind_local, local_at, shadow_at, bind_shadow, jump_unless_terminated,
}

-- What the code behind a loop's body needs: the local for the result, the blocks, and the target of
-- the loop around it.
pub record LoopBlocks : Type 0 where
  pub loop_local : Identifier
  pub merge_blk : ℕ
  pub old_current_loop : Option ℕ

module _ (host : Host) where
  -- Initial values of loop bindings are type-erased.
  unfoldable pub erase_binding : Bool → Bytes → Handle → M (Unit {0})
  unfolding type_erase bind_local local_at
  erase_binding is_loop name local_type =
      if is_loop
      then (if host.is_typed_object local_type
          then (do
            value ← local_at name
            erased ← type_erase host value_ value
            bind_local name erased)
          else pure tt)
      else pure tt

  unfoldable pub binding_shadows : List (Bytes × Node) → M (List BindingShadow)
  unfolding next_shadow bind_shadow local_at
  binding_shadows [] = pure []
  binding_shadows ((symbol, n) ∷ pairs) = do
    shadow ← next_shadow
    let name = munge symbol
    bind_shadow name shadow
    value ← local_at name
    shadows ← binding_shadows pairs
    pure (record { name = shadow; value = value; type = host.mutable_type n.type } ∷ shadows)

  unfoldable pub read_bindings : List (Bytes × Node) → M (Unit {0})
  unfolding shadow_at branch_get bind_local
  read_bindings [] = pure tt
  read_bindings ((symbol, n) ∷ pairs) = do
    let name = munge symbol
    shadow ← shadow_at name
    value ← branch_get host shadow n.expression_type
    bind_local name value
    read_bindings pairs

  -- `loop_with_recur`, up to the body.
  unfoldable pub open_loop : Position → Handle → List (Bytes × Node) → M LoopBlocks
  unfolding local binding_shadows new_block block_name loop enter_block read_bindings
  open_loop pos type pairs = do
    loop_local ← local host type
    shadows ← binding_shadows pairs
    loop_blk ← new_block (codes "loop")
    merge_blk ← new_block (codes "loop-merge")
    old_current_loop ← gets λ b. b.loop_recur_target
    modify λ b. record b { loop_recur_target = some loop_blk }
    loop_name ← block_name loop_blk
    merge_name ← block_name merge_blk
    let merge : Option Identifier = elim pos [ tail_ ↦ none | _ ↦ some merge_name ]
    _ ← loop host loop_name merge none shadows
    enter_block loop_blk
    read_bindings pairs
    pure (record {
      loop_local = loop_local;
      merge_blk = merge_blk;
      old_current_loop = old_current_loop;
    })

  -- The code behind the body, where the loop is in tail position.
  unfoldable pub close_tail_loop : LoopBlocks → Identifier → M (Unit {0})
  unfolding discard_block cpp_scope_close
  close_tail_loop l scope = do
    discard_block l.merge_blk
    _ ← cpp_scope_close host scope
    modify λ b. record b { loop_recur_target = l.old_current_loop }

  -- The same in another position.
  unfoldable pub close_value_loop : LoopBlocks → Identifier → Option Identifier → M (Unit {0})
  unfolding jump_unless_terminated enter_block cpp_scope_close
  close_value_loop l scope body_res = do
    jump_unless_terminated host l.loop_local body_res l.merge_blk
    enter_block l.merge_blk
    _ ← cpp_scope_close host scope
    modify λ b. record b { loop_recur_target = l.old_current_loop }

  unfoldable pub close_loop :
      Position → LoopBlocks → Identifier → Option Identifier → M (Option Identifier)
  unfolding close_tail_loop close_value_loop
  close_loop tail_ l scope body_res = do close_tail_loop l scope; pure (some l.loop_local)
  close_loop _ l scope body_res = do close_value_loop l scope body_res; pure (some l.loop_local)

  -- The loop over the bindings of a `recur` to a loop; `none` where an argument is missing.
  unfoldable pub set_loop_shadows : List Bytes → List Identifier → M (Unit {0})
  unfolding shadow_at branch_set
  set_loop_shadows [] values = pure tt
  set_loop_shadows (symbol ∷ symbols) [] = unwrap none
  set_loop_shadows (symbol ∷ symbols) (new_val ∷ values) = do
    shadow ← shadow_at (munge symbol)
    elim (eq_bytes shadow new_val) [
      | true ↦ set_loop_shadows symbols values
      | false ↦ (do _ ← branch_set host shadow new_val; set_loop_shadows symbols values)
    ]

  -- The loop over the parameters of a `recur` to a function.
  unfoldable pub set_param_shadows : List Bytes → List Identifier → M (Unit {0})
  unfolding next_shadow shadow_at branch_set
  set_param_shadows [] values = pure tt
  set_param_shadows (param ∷ params) [] = unwrap none
  set_param_shadows (param ∷ params) (new_val ∷ values) = do
    _ ← next_shadow
    shadow ← shadow_at (munge param)
    _ ← branch_set host shadow new_val
    set_param_shadows params values

  -- A `recur`, behind its arguments.
  unfoldable pub recur_with : Option (List Bytes) → List Identifier → M (Option Identifier)
  unfolding set_loop_shadows set_param_shadows jump_to yields
  recur_with (some names) arg_idents = do
    set_loop_shadows names arg_idents
    loop_target ← gets λ b. b.loop_recur_target
    target ← unwrap loop_target
    yields (jump_to host target true)
  recur_with none arg_idents = do
    params ← gets λ b. b.params
    set_param_shadows params arg_idents
    fn_target ← gets λ b. b.fn_recur_target
    target ← unwrap fn_target
    yields (jump_to host target true)
