-- ===== src/Digraph/Sort/Relax.antt =====
-- What the loop over the successors of a node leaves of the graph and of the queue.
use cogutil.Base.{
  ℕ, ◌+◌, ◌<◌, Bool, false, ◌&&◌, not, List, [], ◌∷◌, some, if◌then◌else◌, ◌==◌, ◌≡◌, refl, sym,
  ◌∙◌, arith, is_nil, All, lt→ltb, Bool-cases, inl, inr, subst, ==_iff,
}
use cogutil.Base.Order.{nat_less}
use cogutil.Sorted.{member, IsSorted}
use cogutil.Sorted.Laws.{member_below, same_refl}
use cogutil.Digraph.{Digraph, erased, incoming}
use cogutil.Digraph.Edges.{edge, IsMirrored, edge-erased, erased-IsMirrored, erase_within, same-eq}
use cogutil.Digraph.Sort.{relax, pushed}
use cogutil.Digraph.Sort.Counting.{occurrences, occurrences-append}

-- Two sets with the same items are both empty or both not.
pub is_nil-ext :
    (xs ys : List ℕ)
    → ((a : ℕ) → member nat_less a xs ≡ member nat_less a ys)
    → is_nil xs ≡ is_nil ys
unfolding member
is_nil-ext [] [] h = refl
is_nil-ext [] (y ∷ ys) h = ground (arith, h y, same_refl nat_less y)
is_nil-ext (x ∷ xs) [] h = ground (arith, h x, same_refl nat_less x)
is_nil-ext (x ∷ xs) (y ∷ ys) h = refl

-- Whether the node has no edge to it.
abbrev pub is_source : Digraph → ℕ → Bool
is_source g x = is_nil (g.incoming_sets x)

occurrences-pushed :
    (x dst : ℕ) (q set : List ℕ)
    → occurrences x (pushed dst q set)
      ≡ occurrences x q + (if (dst == x) && is_nil set then 1 else 0)
occurrences-pushed x dst q [] = ground (arith, occurrences-append x q (dst ∷ []))
occurrences-pushed x dst q (y ∷ ys) = ground arith

-- The graph and the queue that the loop leaves.
pub record Relaxed (src : ℕ) (dsts : List ℕ) (g : Digraph) (q : List ℕ) : Type 0 where
  pub graph : Digraph
  pub queue : List ℕ
  pub ran : relax src dsts g q ≡ some (graph, queue)
  pub mirrored : IsMirrored graph
  pub size_same : graph.size ≡ g.size
  pub edges :
      (a b : ℕ) → edge graph a b ≡ (not ((a == src) && member nat_less b dsts) && edge g a b)
  pub queued :
      (x : ℕ)
      → occurrences x queue
        ≡ occurrences x q + (if member nat_less x dsts && is_source graph x then 1 else 0)

relax_next :
    (src dst : ℕ) (dsts : List ℕ) (g : Digraph) (q : List ℕ)
    → src < g.size
    → dst < g.size
    → let g' = erased src dst g in
      relax src (dst ∷ dsts) g q ≡ relax src dsts g' (pushed dst q (g'.incoming_sets dst))
unfolding relax incoming
relax_next src dst dsts g q p r = rw (relax, erase_within src dst g p r, lt→ltb dst g.size r) refl

-- The first successor is not met again, so what is pushed for it stands.
queued_next :
    (src d : ℕ) (ds : List ℕ) (g : Digraph) (q : List ℕ)
    → IsMirrored g
    → (next : Relaxed src ds (erased src d g) (pushed d q ((erased src d g).incoming_sets d)))
    → member nat_less d ds ≡ false
    → (x : ℕ)
    → occurrences x next.queue
      ≡ occurrences x q + (if member nat_less x (d ∷ ds) && is_source next.graph x then 1 else 0)
unfolding member
queued_next src d ds g q v next other x =
    let g1 = erased src d g in
    let kept : is_source next.graph d ≡ is_source g1 d =
      is_nil-ext (next.graph.incoming_sets d) (g1.incoming_sets d)
        (λ a. ground (arith, next.edges a d, other)) in
    elim (Bool-cases (x == d)) [
      | inl here ↦
          subst
            (λ y.
              occurrences y next.queue
              ≡ occurrences y q
                + (if member nat_less y (d ∷ ds) && is_source next.graph y then 1 else 0))
            (sym ((==_iff x d).0 here))
            (rw
              (
                next.queued d,
                occurrences-pushed d d q (g1.incoming_sets d),
                kept,
                other,
                same_refl nat_less d,
              )
              (ground arith))
      | inr there ↦
          let apart : (d == x) ≡ false = ground arith in
          rw
            (
              next.queued x,
              occurrences-pushed x d q (g1.incoming_sets d),
              same-eq x d,
              there,
              apart,
            )
            (omega arith)
    ]

pub relax-Relaxed :
    (src : ℕ) (dsts : List ℕ) (g : Digraph) (q : List ℕ)
    → src < g.size
    → All (λ d. d < g.size) dsts
    → IsSorted nat_less dsts
    → IsMirrored g
    → Relaxed src dsts g q
unfolding relax member
relax-Relaxed src [] g q p r s v = record {
  graph = g;
  queue = q;
  ran = refl;
  mirrored = v;
  size_same = refl;
  edges = λ a b. ground arith;
  queued = λ x. ground arith;
}
relax-Relaxed src (d ∷ ds) g q p r s v =
    let g1 = erased src d g in
    let next =
      relax-Relaxed src ds g1 (pushed d q (g1.incoming_sets d)) p r.1 s.1
        (erased-IsMirrored src d g v) in
    let other = member_below nat_less d ds s.0 in
    record {
      graph = next.graph;
      queue = next.queue;
      ran = relax_next src d ds g q p r.0 ∙ next.ran;
      mirrored = next.mirrored;
      size_same = next.size_same;
      edges = λ a b. ground (arith, next.edges a b, edge-erased src d g v a b, same-eq b d);
      queued = λ x. queued_next src d ds g q v next other x;
    }
