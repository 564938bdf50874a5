-- ===== src/Pages/Count.antt =====
-- `page_init` and `page_clean` of os/kernel/memory.c: the references to a page.
use Prim.Native.Nat.{bit_and, bit_or}
use kalinote_os.Base.{
  ℕ, ◌-◌, ◌^◌, ◌<◌, ◌≡◌, ◌≢◌, inl, inr, Bool, ◌||◌, not, ap, ◌∙◌, arith, ◌==◌, if◌then◌else◌,
  update_self, Bool-cases,
}
use kalinote_os.Pages.{Memory, inc, dec, page_init, page_clean}

-- With its attribute or-ed with `flags`, the page is shared.
abbrev pub shared_with : Memory → ℕ → ℕ → Bool
shared_with m page flags = not (bit_and (bit_or (m.attribute page) flags) 16 == 0)

clean_count :
    (m : Memory) (page : ℕ)
    → (page_clean m page).reference_count page ≡ dec (m.reference_count page)
unfolding page_clean
clean_count m page = elim (Bool-cases (dec (m.reference_count page) == 0)) [
  | inl b ↦ rw b (update_self m.reference_count page (dec (m.reference_count page)))
  | inr b ↦ rw b (update_self m.reference_count page (dec (m.reference_count page)))
]

init_count :
    (m : Memory) (page flags : ℕ)
    → (page_init m page flags).reference_count page ≡ (
        if (m.reference_count page == 0) || shared_with m page flags
        then inc (m.reference_count page)
        else m.reference_count page)
unfolding page_init
init_count m page flags =
    elim (Bool-cases ((m.reference_count page == 0) || shared_with m page flags)) [
      | inl b ↦ rw b (update_self m.reference_count page (inc (m.reference_count page)))
      | inr b ↦ rw b
    ]

-- After `page_init` and `page_clean` a page has as many references as before when it had none or is
-- shared. A page in use that is not shared has one less: `page_init` does not count it again.
pub page_clean-page_init :
    (m : Memory) (page flags : ℕ)
    → m.reference_count page < 2 ^ 64
    → (page_clean (page_init m page flags) page).reference_count page ≡ (
        if (m.reference_count page == 0) || shared_with m page flags
        then m.reference_count page
        else m.reference_count page - 1)
page_clean-page_init m page flags lt =
    clean_count (page_init m page flags) page
    ∙ ap dec (init_count m page flags)
    ∙ elim (Bool-cases ((m.reference_count page == 0) || shared_with m page flags)) [
      | inl b ↦ rw b (omega (arith, lt))
      | inr b ↦ rw b (let n : m.reference_count page ≢ 0 = ground (arith, b) in omega (arith, lt))
    ]
