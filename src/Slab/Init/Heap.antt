-- ===== src/Slab/Init/Heap.antt =====
-- `slab_init` of os/kernel/memory.c leaves a sound heap.
use native.Mathlib.Nat.{mul-div-le}
use mathlib.Core.Path.{subst}
use kalinote_os.Base.{
  ℕ, zero, suc, ◌+◌, ◌-◌, ◌*◌, ◌/◌, ◌%◌, ◌^◌, ◌≤◌, ◌<◌, ◌≡◌, ◌≢◌, inl, inr, [], arith, sym, ◌∙◌, ap,
  refl, ◌==◌, Bool-cases, update_self, update_ne,
}
use kalinote_os.Pages.{Memory}
use kalinote_os.Slab.{Slabs, page_2m_size, kmalloc_cache}
use kalinote_os.Slab.Kfree.Round.{IsHeap}
use kalinote_os.Slab.Init.{
  virtual, virt_to_phy, init_caches, use_page, use_pages, place_objects, place_all, slab_init,
}
use kalinote_os.Slab.Init.Laid.{IsFresh, IsFresh-IsCache}
use kalinote_os.Slab.Init.Ready.{Ready, init_caches-Ready}

abbrev pool : Slabs → ℕ → ℕ
pool s k = s.cache_pool (kmalloc_cache k)

-- Only the pages change.
abbrev paged : Slabs → Memory → (ℕ → ℕ) → (ℕ → ℕ) → Slabs
paged s memory page v_address = record s { memory = memory; page = page; v_address = v_address }

-- The slabs of the caches in the range have their objects at their addresses, the other slabs where
-- they had them.
record Placed (s : Slabs) (from to finish : ℕ) (s' : Slabs) : Type 0 where
  pub memory : Memory
  pub page : ℕ → ℕ
  pub v_address : ℕ → ℕ
  pub only : s' ≡ paged s memory page v_address
  pub within : (k : ℕ) → from ≤ k → k < to → v_address (pool s k) ≡ virtual finish k
  pub others : (x : ℕ) → ((k : ℕ) → from ≤ k → k < to → pool s k ≢ x) → v_address x ≡ s.v_address x

use_pages-paged :
    (s : Slabs) (j left : ℕ)
    → use_pages j left s ≡ paged s (use_pages j left s).memory s.page s.v_address
unfolding use_pages use_page
use_pages-paged s j zero = refl
use_pages-paged s j (suc left) = use_pages-paged (use_page j s) (j + 1) left

place_all-Placed :
    (s : Slabs) (i left finish : ℕ)
    → ((k l : ℕ) → k < i + left → l < i + left → pool s k ≡ pool s l → k ≡ l)
    → Placed s i (i + left) finish (place_all i left finish s)
unfolding place_all place_objects use_page
place_all-Placed s i zero finish apart = record {
  memory = s.memory;
  page = s.page;
  v_address = s.v_address;
  only = refl;
  within = λ k l r. absurd (omega (arith, l, r));
  others = λ x n. refl;
}
place_all-Placed s i (suc left) finish apart =
    let rest =
      place_all-Placed (place_objects i finish s) (i + 1) left finish
        (λ k l lk ll. apart k l (omega (arith, lk)) (omega (arith, ll))) in
    let here = virtual finish i in
    record {
      memory = rest.memory;
      page = rest.page;
      v_address = rest.v_address;
      only = rest.only;
      within = λ k l r. elim (Bool-cases (i == k)) [
        | inl e ↦
            let same : i ≡ k = ground (arith, e) in
            subst (λ z. rest.v_address (pool s z) ≡ virtual finish z) same
              (rest.others (pool s i)
                  (λ q lq rq c. omega (arith, apart q i (omega (arith, rq)) (omega arith) c, lq))
                ∙ update_self s.v_address (pool s i) here)
        | inr e ↦ rest.within k (ground (arith, e, l)) (omega (arith, r))
      ];
      others = λ x n.
          rest.others x (λ k l r. n k (omega (arith, l)) (omega (arith, r)))
          ∙ update_ne s.v_address (pool s i) x here (n i (omega arith) (omega arith));
    }

IsFresh-paged :
    (s : Slabs) (memory : Memory) (page v_address : ℕ → ℕ) (cache : ℕ)
    → IsFresh s cache
    → IsFresh (paged s memory page v_address) cache
IsFresh-paged s memory page v_address cache f = record {
  next = f.next;
  prev = f.prev;
  no_null = f.no_null;
  free = f.free;
  using = f.using;
  clear = f.clear;
  total_free = f.total_free;
  total_using = f.total_using;
  count = f.count;
}

-- A heap of fresh caches with the objects in their places.
paged-IsHeap :
    (s : Slabs) (memory : Memory) (page v_address : ℕ → ℕ) (finish limit : ℕ)
    → Ready s 16 limit
    → finish + 2 ^ 26 ≤ 2 ^ 64
    → ((k : ℕ) → k < 16 → v_address (pool s k) ≡ virtual finish k)
    → ((k : ℕ) → k < 16 → 0 < s.size (kmalloc_cache k))
    → IsHeap (paged s memory page v_address) (λ k. [])
paged-IsHeap s memory page v_address finish limit r top at sizes = record {
  caches = λ i lt.
      IsFresh-IsCache (paged s memory page v_address) (kmalloc_cache i)
        (IsFresh-paged s memory page v_address (kmalloc_cache i) (r.fresh i lt));
  page_start = λ i x lt h.
      let its : x ≡ pool s i = ground (arith, h) in omega (arith, ap v_address its, at i lt);
  page_end = λ i x lt h.
      let its : x ≡ pool s i = ground (arith, h) in
      let size = s.size (kmalloc_cache i) in
      (
        omega (arith, ap v_address its, at i lt, top, lt),
        subst (λ z. size * z ≤ page_2m_size) (sym (ap s.color_count its ∙ (r.fresh i lt).count))
            (mul-div-le page_2m_size size),
      );
  sizes = sizes;
  apart = λ i k x y li lk hx hy e.
      let its : x ≡ pool s i = ground (arith, hx) in
      let other : y ≡ pool s k = ground (arith, hy) in
      let same : i ≡ k =
        omega (arith, ap v_address its, ap v_address other, at i li, at k lk, e, top, li, lk) in
      (its ∙ ap (pool s) same ∙ sym other, same);
}

-- What `slab_init` leaves of sizes `size`, with the counts of cache `i`.
abbrev pub Leaves : (ℕ → ℕ) → ℕ → Slabs → Type 0
Leaves size i s =
    IsHeap s (λ k. [])
    × (s.total_free (kmalloc_cache i) ≡ page_2m_size / size (kmalloc_cache i))
    × (s.total_using (kmalloc_cache i) ≡ 0)

place_all-Leaves :
    (t : Slabs) (memory : Memory) (finish i : ℕ)
    → Ready t 16 finish
    → finish + 2 ^ 26 ≤ 2 ^ 64
    → ((k : ℕ) → k < 16 → 0 < t.size (kmalloc_cache k))
    → i < 16
    → Leaves t.size i (place_all 0 16 finish (paged t memory t.page t.v_address))
place_all-Leaves t memory finish i r top sizes lt =
    let p = place_all-Placed (paged t memory t.page t.v_address) 0 16 finish r.apart in
    let f = r.fresh i lt in
    subst (Leaves t.size i) (sym p.only) (
      paged-IsHeap t p.memory p.page p.v_address finish finish r top
          (λ k l. p.within k (omega arith) l) sizes,
      f.total_free ∙ f.count,
      f.total_using,
    )

-- `slab_init` with memory behind `end_of_struct` leaves a sound heap of one slab in each cache: the
-- lists, the counts and the colour maps fit, each slab has a page of its own for its objects, and
-- each cache has a page full of free objects and none in use. Sizes of objects are not 0.
pub slab_init-IsHeap :
    (s : Slabs) (finish i : ℕ)
    → finish ≢ 0
    → finish + 2 ^ 27 ≤ 2 ^ 64
    → ((k : ℕ) → k < 16 → 0 < s.size (kmalloc_cache k))
    → i < 16
    → Leaves s.size i (slab_init finish s).1
unfolding slab_init
slab_init-IsHeap s finish i nz top sizes lt =
    let none_yet : Ready s 0 finish = record {
      fresh = λ k l. absurd (omega (arith, l));
      pool = λ k l. absurd (omega (arith, l));
      map = λ k l. absurd (omega (arith, l));
      apart = λ k l lk. absurd (omega (arith, lk));
    } in
    let (ready, low, high, same) =
      init_caches-Ready s 0 16 finish nz (omega (arith, top)) none_yet in
    let (finish', t) = init_caches 0 16 finish s in
    let first = (virt_to_phy finish + page_2m_size - 1) % 2 ^ 64 / page_2m_size in
    let count = virt_to_phy finish' / page_2m_size + 1 - first in
    subst (λ z. Leaves z i (place_all 0 16 finish' (use_pages first count t))) same
      (subst (λ z. Leaves t.size i (place_all 0 16 finish' z)) (sym (use_pages-paged t first count))
        (place_all-Leaves t (use_pages first count t).memory finish' i ready
          (omega (arith, top, high))
          (λ k l. subst (λ z. 0 < z (kmalloc_cache k)) (sym same) (sizes k l)) lt))
