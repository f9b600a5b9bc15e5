-- ===== src/Alloc/Apply/Fresh.antt =====
-- A new allocation starts from planes that show no layer of the output.
use libliftoff.Prelude.{
  ℕ, ◌≡◌, refl, ◌∙◌, inl, inr, Bool, true, false, List, [], ◌∷◌, Option, none, some, arith, has,
  ◌==◌, ◌&&◌, if◌then◌else◌, Bool-cases, Option-cases,
}
use libliftoff.Errno.{ok, and_then-eq-ok}
use libliftoff.Drm.{Drm}
use libliftoff.Model.{Ptr, Heap}
use libliftoff.Links.{links}
use libliftoff.Alloc.Choose.Optimal.{IsSteady}
use libliftoff.Alloc.Apply.{
  Session, unmap, unmapped, disable_planes, compute_alloc, task, log_no_reuse, with_commits,
}
use libliftoff.Alloc.Apply.Mapping.{write_link}
use libliftoff.Alloc.Apply.Linked.{IsReady, unmapped-IsReady}
use libliftoff.Alloc.Apply.Result.{Result, allocate-Result}

-- Whether the layer that a plane shows, if any, is one of the output.
abbrev pub is_of : Heap → (o : Ptr) → Option Ptr → Bool
is_of h o none = false
is_of h o (some l) = (h.layer l).output == o

is_of-write_link :
    (h : Heap) (o p l : Ptr) (a : Option Ptr) → is_of (write_link h p l none none) o a ≡ is_of h o a
is_of-write_link h o p l none = refl
is_of-write_link h o p l (some m) = ground arith

plane-unmap :
    (o : Ptr) (ps : List Ptr) (h : Heap) (q : Ptr)
    → ((unmap o ps h).plane q).layer
      ≡ (if has q ps && is_of h o (h.plane q).layer then none else (h.plane q).layer)
unfolding unmap
plane-unmap o [] h q = refl
plane-unmap o (p ∷ ps) h q = elim (Option-cases (h.plane p).layer) [
  | inl e ↦ rw (e, unmap) (ground (arith, plane-unmap o ps h q))
  | inr (l, e) ↦
      rw (e, unmap)
        (elim (Bool-cases ((h.layer l).output == o)) [
          | inl mine ↦
              rw (mine, unmap)
                (plane-unmap o ps (write_link h p l none none) q ∙ elim (Bool-cases (p == q)) [
                  | inl same ↦ ground arith
                  | inr differs ↦ ground (arith, is_of-write_link h o p l (h.plane q).layer)
                ])
          | inr other ↦ rw (other, unmap) (ground (arith, plane-unmap o ps h q))
        ])
]

-- `unmapped` takes the layers of the output off the planes, and no others.
pub plane-unmapped :
    (h : Heap) (o q : Ptr)
    → has q h.planes ≡ true
    → ((unmapped h o).plane q).layer
      ≡ (if is_of h o (h.plane q).layer then none else (h.plane q).layer)
unfolding unmapped
plane-unmapped h o q here =
    let logged = log_no_reuse h o in
    let reset = with_commits logged (record logged.commits { test_commit_counter = 0 }) in
    ground (arith, plane-unmap o h.planes reset q)

module _ (drm : Drm) (fuel : ℕ) (o : Ptr) (flags : ℕ) where
  -- If the kernel is steady and the pointers agree, a new allocation that succeeds starts from planes
  -- that show what they showed, but for the layers of the output, and leaves them with a valid
  -- allocation of the greatest score, or as they were then where no allocation is valid.
  pub compute_alloc-Result :
      (s : Session drm.Req) (v : IsReady (links s.heap) o)
      → IsSteady drm fuel (unmapped s.heap o) (task (unmapped s.heap o) o flags)
      → (memory : Bool) (s' : Session drm.Req) → compute_alloc drm fuel o flags memory s ≡ (ok, s')
      → ((q : Ptr)
          → has q s.heap.planes ≡ true
          → ((unmapped s.heap o).plane q).layer
            ≡ (if is_of s.heap o (s.heap.plane q).layer then none else (s.heap.plane q).layer))
        × ((r : drm.Req) × (disable_planes drm (unmapped s.heap o) (unmapped s.heap o).planes s.req
              ≡ (ok, r))
            × Result drm fuel
                (unmapped s.heap o)
                o
                flags
                (unmapped-IsReady drm fuel o flags s.heap v)
                r
                s'.heap)
  unfolding compute_alloc
  compute_alloc-Result s v steady memory s' run =
      let w = unmapped-IsReady drm fuel o flags s.heap v in
      let (r, off, done) =
        and_then-eq-ok (disable_planes drm (unmapped s.heap o) (unmapped s.heap o).planes s.req) _ _
          run in
      (
        plane-unmapped s.heap o,
        (r, off, allocate-Result drm fuel (unmapped s.heap o) o flags w steady memory r s' done),
      )
