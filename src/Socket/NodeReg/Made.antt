-- ===== src/Socket/NodeReg/Made.antt =====
-- What `NewServerNode` of socket/nodereg.go makes after the registrations.
use rocommon.Prelude.{
  ℕ, List, [], ◌∷◌, Option, none, some, ◌≡◌, refl, All, arith, ◌∙◌, sym, ap, false, inl, inr,
  Bool-cases,
}
use mathlib.Core.Path.{subst}
use mathlib.Core.Option.{some-ne-none}
use rocommon.Prelude.Outcome.{Outcome, ok, panic, first_step}
use rocommon.Text.{String, ◌=s◌}
use rocommon.Text.Digits.{All-mono}
use rocommon.Text.Equal.{=s_refl, =s_eq}
use rocommon.Socket.NodeReg.{
  ServerNode, node_by_name, register_new, register_server_node, register_nodes, new_server_node,
  with_property,
}

module _ {N : Type 0} where
  -- A registration adds its creator under its type's name, and changes no other.
  register_new-node_by_name :
      (f : ServerNode N) (r s : List (String × ServerNode N)) (found : Option (ServerNode N))
      → node_by_name r f.type_of_name ≡ found
      → register_new found f r ≡ ok s
      → (node_by_name s f.type_of_name ≡ some f)
        × ((k : String) (g : ServerNode N) → node_by_name r k ≡ some g → node_by_name s k ≡ some g)
  unfolding register_new node_by_name
  register_new-node_by_name f r s none n e =
      let own = =s_refl f.type_of_name in
      (
        ground (arith, own, e),
        λ k g h. let other = taken_or_new f k g r n h in ground (arith, other, e, h),
      )
    where
      taken_or_new :
          (f : ServerNode N) (k : String) (g : ServerNode N) (r : List (String × ServerNode N))
          → node_by_name r f.type_of_name ≡ none
          → node_by_name r k ≡ some g
          → (f.type_of_name =s k) ≡ false
      taken_or_new f k g r n h = elim (Bool-cases (f.type_of_name =s k)) [
        | inl same ↦
            absurd
              (some-ne-none g (sym h ∙ ap (node_by_name r) (sym (=s_eq f.type_of_name k same)) ∙ n))
        | inr other ↦ other
      ]
  register_new-node_by_name f r s (some g) n e = absurd (ground (arith, e))

  -- A creator that is found in what a call returned.
  KeptIn : Outcome (List (String × ServerNode N)) → String → ServerNode N → Type 0
  KeptIn panic k g = ⊥
  KeptIn (ok r) k g = node_by_name r k ≡ some g

  register_nodes-node_by_name :
      (fs : List (ServerNode N)) (r reg : List (String × ServerNode N))
      → register_nodes fs r ≡ ok reg
      → All (λ f. node_by_name reg f.type_of_name ≡ some f) fs
        × ((k : String) (g : ServerNode N)
            → node_by_name r k ≡ some g
            → node_by_name reg k ≡ some g)
  unfolding register_nodes register_server_node KeptIn
  register_nodes-node_by_name [] r reg e = (tt, λ k g h. subst (λ o. KeptIn o k g) e h)
  register_nodes-node_by_name (f ∷ fs) r reg e =
      let (s, made, rest) = first_step (register_server_node f r) (λ x. register_nodes fs x) e in
      let (own, kept) = register_new-node_by_name f r s (node_by_name r f.type_of_name) refl made in
      let (all, more) = register_nodes-node_by_name fs s reg rest in
      ((more f.type_of_name f own, all), λ k g h. more k g (kept k g h))

  -- When no registration ended the process, NewServerNode makes of the type name of any registered
  -- creator a node of that creator, with the address, the name and the queue given, whatever was
  -- registered before and after it.
  pub register_nodes-new_server_node :
      (fs : List (ServerNode N)) (reg : List (String × ServerNode N)) (server_name addr : String)
      (que : Option ℕ)
      → register_nodes fs [] ≡ ok reg
      → All
          (λ f.
            new_server_node reg f.type_of_name server_name addr que
            ≡ ok (record f { property = record { name = server_name; addr = addr; queue = que } }))
          fs
  unfolding new_server_node with_property
  register_nodes-new_server_node fs reg server_name addr que e =
      All-mono _ _
        (λ f h.
          ap
            (λ found. with_property found (record { name = server_name; addr = addr; queue = que }))
            h)
        fs (register_nodes-node_by_name fs [] reg e).0
