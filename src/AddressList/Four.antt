-- ===== src/AddressList/Four.antt =====
-- What stays true in the loop of perform_quick_list_sort (lab1/zad1/src/list_funs.c): three lists
-- grow by add_elem, and the rest of the source list, none sharing a node with another.
use sysopy.Common.{ℕ, ◌≤◌, ◌≡◌, none, some, [], ◌∷◌, ◌++◌, length}
use sysopy.AddressList.Memory.{Ptr, Person, Heap}
use sysopy.AddressList.Functions.{add_elem}
use sysopy.AddressList.Append.{add_elem-appends}
use sysopy.AddressList.Chain.{
  Ends, Ends-weaken, Cells, first, Chain, Distinct, Disjoint, Outside, Chain-frame, Disjoint-comm,
  Disjoint-grow, Distinct-grow,
}

-- Three lists and what is left of a fourth, that share no node.
pub record Four (h : Heap) (t u v : Cells) (back : Ptr) (rest : Cells) : Type 0 where
  pub chain_t : Chain h none t none
  pub chain_u : Chain h none u none
  pub chain_v : Chain h none v none
  pub chain_rest : Chain h back rest none
  pub distinct_t : Distinct t
  pub distinct_u : Distinct u
  pub distinct_v : Distinct v
  pub distinct_rest : Distinct rest
  pub tu : Disjoint t u
  pub tv : Disjoint t v
  pub uv : Disjoint u v
  pub rest_t : Disjoint rest t
  pub rest_u : Disjoint rest u
  pub rest_v : Disjoint rest v

module _ {h : Heap} {t u v : Cells} {back : Ptr} {rest : Cells} where
  pub Four-swap : Four h t u v back rest → Four h u t v back rest
  Four-swap f = record {
    chain_t = f.chain_u;
    chain_u = f.chain_t;
    chain_v = f.chain_v;
    chain_rest = f.chain_rest;
    distinct_t = f.distinct_u;
    distinct_u = f.distinct_t;
    distinct_v = f.distinct_v;
    distinct_rest = f.distinct_rest;
    tu = Disjoint-comm t u f.tu;
    tv = f.uv;
    uv = f.tv;
    rest_t = f.rest_u;
    rest_u = f.rest_t;
    rest_v = f.rest_v;
  }

  pub Four-turn : Four h t u v back rest → Four h v t u back rest
  Four-turn f = record {
    chain_t = f.chain_v;
    chain_u = f.chain_t;
    chain_v = f.chain_u;
    chain_rest = f.chain_rest;
    distinct_t = f.distinct_v;
    distinct_u = f.distinct_t;
    distinct_v = f.distinct_u;
    distinct_rest = f.distinct_rest;
    tu = Disjoint-comm t v f.tv;
    tv = Disjoint-comm u v f.uv;
    uv = f.tu;
    rest_t = f.rest_v;
    rest_u = f.rest_t;
    rest_v = f.rest_u;
  }

-- add_elem moves the first node of the rest to the end of one list.
pub move :
    (h : Heap) (w : ℕ) (t u v : Cells) (back : Ptr) (x : ℕ × Person) (rest : Cells)
    → length t ≤ w
    → Four h t u v back (x ∷ rest)
    → Ends
        (λ head g.
          (head ≡ first (t ++ x ∷ []) none)
          × Four g (t ++ x ∷ []) u v (some x.0) rest
          × Outside (t ++ x ∷ []) h g)
        (add_elem w (first t none) (some x.0) h)
move h w t u v back x rest fuel f =
    let apart_u = Disjoint-grow t x u f.tu f.rest_u.0 in
    let apart_v = Disjoint-grow t x v f.tv f.rest_v.0 in
    let apart_rest =
      Disjoint-comm (t ++ x ∷ []) rest
        (Disjoint-grow t x rest (Disjoint-comm rest t f.rest_t.1) f.distinct_rest.0) in
    Ends-weaken (add_elem-appends h w t x.0 _ fuel f.chain_t f.distinct_t f.rest_t.0 f.chain_rest.0)
      λ head g (is_head, chain, same). (
        is_head,
        record {
          chain_t = chain;
          chain_u =
              Chain-frame none u none (t ++ x ∷ []) same (Disjoint-comm (t ++ x ∷ []) u apart_u)
                f.chain_u;
          chain_v =
              Chain-frame none v none (t ++ x ∷ []) same (Disjoint-comm (t ++ x ∷ []) v apart_v)
                f.chain_v;
          chain_rest =
              Chain-frame (some x.0) rest none (t ++ x ∷ []) same apart_rest f.chain_rest.1;
          distinct_t = Distinct-grow t x f.distinct_t f.rest_t.0;
          distinct_u = f.distinct_u;
          distinct_v = f.distinct_v;
          distinct_rest = f.distinct_rest.1;
          tu = apart_u;
          tv = apart_v;
          uv = f.uv;
          rest_t = apart_rest;
          rest_u = f.rest_u.1;
          rest_v = f.rest_v.1;
        },
        same,
      )
