-- ===== src/Pmm/Refcount.antt =====
-- The owners of a frame.
use luminary.Base.{
  Bool-cases, inl, inr, ◌-◌, ◌&&◌, true, refl, ltb, update, ℕ, ◌/◌, ◌<◌, ◌≡◌, arith,
}
use luminary.Pmm.{Pmm, pmm_refcount_inc, pmm_refcount_dec, pmm_refcount_get, page_size}

-- Taking a further owner of a managed frame and dropping it again is the identity on every count,
-- unless the count stands at its 16-bit maximum; the value returned is the count before.
dec-inc :
    (p : Pmm) (addr : ℕ)
    → addr / page_size < p.nframes
    → p.refcounts (addr / page_size) < 0xffff
    → let (left, q) = pmm_refcount_dec (pmm_refcount_inc p addr) addr in
      (left ≡ p.refcounts (addr / page_size)) × ((j : ℕ) → q.refcounts j ≡ p.refcounts j)
unfolding pmm_refcount_dec pmm_refcount_inc pmm_refcount_get
dec-inc p addr within room = (ground arith, λ j. ground arith)

-- A further owner of a managed frame gives it up.
pub dec_shared :
    (p : Pmm) (addr : ℕ)
    → 1 < pmm_refcount_get p addr
    → let (left, q) = pmm_refcount_dec p addr in
      (q ≡ record p {
        refcounts = update p.refcounts (addr / page_size) (p.refcounts (addr / page_size) - 1);
      })
unfolding pmm_refcount_dec pmm_refcount_get
dec_shared p addr shared =
    let within : (ltb (addr / page_size) p.nframes && ltb 0 (p.refcounts (addr / page_size)))
        ≡ true =
      ground (arith, shared) in
    rw within refl

pub get_managed :
    (p : Pmm) (addr : ℕ)
    → 1 < pmm_refcount_get p addr
    → (addr / page_size < p.nframes) × (1 < p.refcounts (addr / page_size))
unfolding pmm_refcount_get
get_managed p addr shared = ground (arith, shared)

pub get_same :
    (p p' : Pmm) (addr : ℕ)
    → p'.nframes ≡ p.nframes
    → p'.refcounts (addr / page_size) ≡ p.refcounts (addr / page_size)
    → pmm_refcount_get p' addr ≡ pmm_refcount_get p addr
unfolding pmm_refcount_get
get_same p p' addr e e' = rw (e, e') refl

-- A further owner changes no frame's state.
pub inc_kept :
    (p : Pmm) (addr : ℕ)
    → ((pmm_refcount_inc p addr).bitmap ≡ p.bitmap)
      × ((pmm_refcount_inc p addr).nframes ≡ p.nframes)
unfolding pmm_refcount_inc
inc_kept p addr =
    elim (Bool-cases
      (ltb (addr / page_size) p.nframes && ltb (p.refcounts (addr / page_size)) 0xffff)) [
        | inl room ↦ rw room (refl, refl)
        | inr none_left ↦ rw none_left (refl, refl)
      ]
