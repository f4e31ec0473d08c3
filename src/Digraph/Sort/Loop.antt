-- ===== src/Digraph/Sort/Loop.antt =====
-- The invariant of the loop over the queue.
use cogutil.Base.{
  ℕ, zero, suc, ◌+◌, ◌<◌, true, false, ◌&&◌, List, [], ◌∷◌, ◌++◌, some, if◌then◌else◌, ltb, ◌==◌,
  ◌≡◌, refl, sym, ◌∙◌, arith, is_nil, All, length, length-append, lt→ltb, Bool-cases, inl, inr,
}
use cogutil.Base.Order.{nat_less}
use cogutil.Sorted.{member}
use cogutil.Digraph.{Digraph, outgoing}
use cogutil.Digraph.Edges.{edge, IsMirrored}
use cogutil.Digraph.Sort.{loop, relax}
use cogutil.Digraph.Sort.Counting.{
  member-All, occurrences, occurrences-append, occurs_first, length-le,
}
use cogutil.Digraph.Sort.Relax.{is_source, is_nil-ext, Relaxed, relax-Relaxed}

-- Behind `seen`, every node of the list comes after all nodes with an edge to it.
abbrev pub Ordered : Digraph → List ℕ → List ℕ → Type 0
Ordered g seen [] = Unit
Ordered g seen (x ∷ xs) =
    ((a : ℕ) → edge g a x ≡ true → 0 < occurrences a seen) × Ordered g (x ∷ seen) xs

Ordered-append :
    (g : Digraph) (x : ℕ) (seen xs : List ℕ)
    → Ordered g seen xs
    → ((a : ℕ) → edge g a x ≡ true → 0 < occurrences a seen + occurrences a xs)
    → Ordered g seen (xs ++ x ∷ [])
Ordered-append g x seen [] o h = ((λ a e. omega (arith, h a e)), tt)
Ordered-append g x seen (y ∷ ys) o h =
    (o.0, Ordered-append g x (y ∷ seen) ys o.1 (λ a e. omega (arith, h a e)))

pub record Inv (g0 g : Digraph) (q out : List ℕ) : Type 0 where
  pub mirrored : IsMirrored g
  pub size_same : g.size ≡ g0.size
  pub edges : (a b : ℕ) → edge g a b ≡ (edge g0 a b && (occurrences a out == 0))
  pub once :
      (x : ℕ)
      → occurrences x out + occurrences x q ≡ (if ltb x g0.size && is_source g x then 1 else 0)
  pub ordered : Ordered g0 [] out

no_member : (a : ℕ) (xs : List ℕ) → is_nil xs ≡ true → member nat_less a xs ≡ false
unfolding member
no_member a [] h = refl
no_member a (x ∷ xs) h = ground arith

loop_next :
    (fuel src : ℕ) (q out : List ℕ) (g g' : Digraph) (q' : List ℕ)
    → src < g.size
    → relax src (g.outgoing_sets src) g q ≡ some (g', q')
    → loop (suc fuel) (src ∷ q) g out ≡ loop fuel q' g' (out ++ src ∷ [])
unfolding loop outgoing
loop_next fuel src q out g g' q' p h = rw (loop, lt→ltb src g.size p, h) refl

-- The node at the front of the queue.
module _ (g0 g : Digraph) (src : ℕ) (q out : List ℕ) (v : Inv g0 g (src ∷ q) out) where
  front_lem : (src < g0.size) × (is_source g src ≡ true) × (occurrences src out ≡ 0)
  front_lem = ground (arith, v.once src, occurs_first src q)

  successors : All (λ d. d < g.size) (g.outgoing_sets src)
  successors =
      member-All (g.outgoing_sets src)
        (λ d e. (v.mirrored.ranges src d (sym (v.mirrored.mirrors src d) ∙ e)).1)

  relaxed : Relaxed src (g.outgoing_sets src) g q
  relaxed =
      relax-Relaxed src (g.outgoing_sets src) g q (omega (arith, front_lem.0, v.size_same))
        successors (v.mirrored.outgoing_sorted src) v.mirrored

  edges_next :
      (a b : ℕ) → edge relaxed.graph a b ≡ (edge g0 a b && (occurrences a (out ++ src ∷ []) == 0))
  edges_next a b = ground (
    arith,
    relaxed.edges a b,
    v.mirrored.mirrors src b,
    v.edges a b,
    occurrences-append a out (src ∷ []),
  )

  once_next :
      (x : ℕ)
      → occurrences x (out ++ src ∷ []) + occurrences x relaxed.queue
        ≡ (if ltb x g0.size && is_source relaxed.graph x then 1 else 0)
  once_next x = elim (Bool-cases (edge g src x)) [
    | inl there ↦
        let target = no_member src (g.incoming_sets x) in
        let (source_in, target_in) = v.mirrored.ranges src x there in
        ground (
          arith,
          occurrences-append x out (src ∷ []),
          v.once x,
          relaxed.queued x,
          v.mirrored.mirrors src x,
          there,
          target,
          target_in,
          v.size_same,
        )
    | inr no_edge ↦
        let kept : is_source relaxed.graph x ≡ is_source g x =
          is_nil-ext (relaxed.graph.incoming_sets x) (g.incoming_sets x)
            (λ a. ground (arith, relaxed.edges a x, v.mirrored.mirrors src x, no_edge)) in
        ground (
          arith,
          occurrences-append x out (src ∷ []),
          v.once x,
          relaxed.queued x,
          v.mirrored.mirrors src x,
          no_edge,
          kept,
        )
  ]

  before_src : (a : ℕ) → edge g0 a src ≡ true → 0 < 0 + occurrences a out
  before_src a e = ground (arith, v.edges a src, no_member a (g.incoming_sets src) front_lem.1, e)

  next-Inv : Inv g0 relaxed.graph relaxed.queue (out ++ src ∷ [])
  next-Inv = record {
    mirrored = relaxed.mirrored;
    size_same = relaxed.size_same ∙ v.size_same;
    edges = edges_next;
    once = once_next;
    ordered = Ordered-append g0 src [] out v.ordered before_src;
  }

-- The loop ends, with every source in the output.
pub loop_lem :
    (fuel : ℕ) (g0 g : Digraph) (q out : List ℕ)
    → Inv g0 g q out
    → g0.size < fuel + length out
    → (g' : Digraph) × (out' : List ℕ) × (loop fuel q g out ≡ some (g', out')) × Inv g0 g' [] out'
unfolding loop
loop_lem zero g0 g q out v h =
    absurd (omega (arith, h, length-le g0.size out (λ x. ground (arith, v.once x))))
loop_lem (suc fuel) g0 g [] out v h = (g, out, refl, v)
loop_lem (suc fuel) g0 g (src ∷ q) out v h =
    let r = relaxed g0 g src q out v in
    let (g', out', ran, v') =
      loop_lem fuel g0 r.graph r.queue (out ++ src ∷ []) (next-Inv g0 g src q out v)
        (omega (arith, h, length-append out (src ∷ []))) in
    (
      g',
      out',
      loop_next fuel src q out g r.graph r.queue
            (omega (arith, (front_lem g0 g src q out v).0, v.size_same)) r.ran
          ∙ ran,
      v',
    )
