-- ===== src/Page/Flags.antt =====
-- The flag tests of os/page.c as arithmetic on the flag byte.
use xin_os.Base.{
  ◌+◌, ◌-◌, ◌*◌, ◌/◌, ◌%◌, ◌≡◌, arith, ◌==◌, if◌then◌else◌, Ptr, Memory, update, update_lem,
  bit_and-one, bit_and-two, bit_and-four, bit_or-one, bit_or-two, bit_or-four,
}
use xin_os.Page.{
  clear_page, is_page_free, set_page_flags, is_page_last, is_page_first, page_taken, page_last,
  page_first,
}

module _ (m : Memory) (p : Ptr) where
  pub free_eq : is_page_free m p ≡ (m p % 2 == 0)
  unfolding is_page_free
  free_eq = ground (arith, bit_and-one (m p))

  pub last_eq : is_page_last m p ≡ (m p / 2 % 2 == 1)
  unfolding is_page_last
  last_eq = ground (arith, bit_and-two (m p))

  pub first_eq : is_page_first m p ≡ (m p / 4 % 2 == 1)
  unfolding is_page_first
  first_eq = ground (arith, bit_and-four (m p))

  pub clear_eq : (a : Ptr) → clear_page m p a ≡ (if a == p then 0 else m a)
  unfolding clear_page
  clear_eq a = update_lem m p 0 a

  pub set_taken_eq :
      (a : Ptr)
      → set_page_flags m p page_taken a ≡ (if a == p then (m p + 1 - m p % 2) % 256 else m a)
  unfolding set_page_flags update
  set_taken_eq a = ground (arith, bit_or-one (m p))

  pub set_last_eq :
      (a : Ptr)
      → set_page_flags m p page_last a
        ≡ (if a == p then (m p + 2 - 2 * (m p / 2 % 2)) % 256 else m a)
  unfolding set_page_flags update
  set_last_eq a = ground (arith, bit_or-two (m p))

  pub set_first_eq :
      (a : Ptr)
      → set_page_flags m p page_first a
        ≡ (if a == p then (m p + 4 - 4 * (m p / 4 % 2)) % 256 else m a)
  unfolding set_page_flags update
  set_first_eq a = ground (arith, bit_or-four (m p))

-- The tests read one byte.
pub free_cong : (m m' : Memory) (p p' : Ptr) → m p ≡ m' p' → is_page_free m p ≡ is_page_free m' p'
unfolding is_page_free
free_cong m m' p p' e = rw e

pub last_cong : (m m' : Memory) (p p' : Ptr) → m p ≡ m' p' → is_page_last m p ≡ is_page_last m' p'
unfolding is_page_last
last_cong m m' p p' e = rw e
