-- ===== src/BootLoaders/Syslinux/Queue.antt =====
-- bootloaders/syslinux-common.c: the queue of kernels.
pub mod Start
use clr_boot_manager.Prelude.{
  ◌≡◌, refl, Bool, true, false, ◌||◌, List, [], ◌∷◌, ◌++◌, Bytes, if◌then◌else◌, streq, streq_iff,
  streq_refl, Bool-cases, inl, inr, arith,
}
use clr_boot_manager.Kernel.{Kernel}

-- Whether a kernel of the same source path is queued.
unfoldable pub queued : Kernel → List Kernel → Bool
queued kernel [] = false
queued kernel (k ∷ ks) = streq k.source.path kernel.source.path || queued kernel ks

-- `syslinux_common_install_kernel` and `grub2_install_kernel`, on the queue; both return true.
unfoldable pub enqueue : Kernel → List Kernel → List Kernel
unfolding queued
enqueue kernel queue = if queued kernel queue then queue else queue ++ (kernel ∷ [])

-- No two kernels of the queue have the same source path.
abbrev pub IsDistinct : List Kernel → Type 0
IsDistinct [] = Unit
IsDistinct (k ∷ ks) = (queued k ks ≡ false) × IsDistinct ks

queued-append :
    (k kernel : Kernel) (ks : List Kernel)
    → queued k ks ≡ false
    → streq kernel.source.path k.source.path ≡ false
    → queued k (ks ++ (kernel ∷ [])) ≡ false
unfolding queued
queued-append k kernel [] h e = ground arith
queued-append k kernel (j ∷ ks) h e = ground (arith, queued-append k kernel ks)

streq_sym : (a b : Bytes) → streq a b ≡ false → streq b a ≡ false
streq_sym a b h = ground (arith, streq_iff a b, streq_iff b a)

pub or_false : (a b : Bool) → a || b ≡ false → (a ≡ false) × (b ≡ false)
or_false a b h = ground arith

queued_last : (kernel : Kernel) (ks : List Kernel) → queued kernel (ks ++ (kernel ∷ [])) ≡ true
unfolding queued
queued_last kernel [] = ground (arith, streq_refl kernel.source.path)
queued_last kernel (k ∷ ks) = ground (arith, queued_last kernel ks)

append-IsDistinct :
    (kernel : Kernel) (ks : List Kernel)
    → queued kernel ks ≡ false
    → IsDistinct ks
    → IsDistinct (ks ++ (kernel ∷ []))
unfolding queued
append-IsDistinct kernel [] h d = (refl, tt)
append-IsDistinct kernel (k ∷ ks) h d = (
  queued-append k kernel ks d.0 (
      streq_sym k.source.path kernel.source.path
        (or_false (streq k.source.path kernel.source.path) (queued kernel ks) h).0),
  append-IsDistinct kernel ks
      (or_false (streq k.source.path kernel.source.path) (queued kernel ks) h).1 d.1,
)

-- Installing a kernel keeps the source paths of the queue distinct, and the kernel is in it afterwards.
pub enqueue-IsDistinct :
    (kernel : Kernel) (queue : List Kernel)
    → IsDistinct queue
    → IsDistinct (enqueue kernel queue) × (queued kernel (enqueue kernel queue) ≡ true)
unfolding enqueue
enqueue-IsDistinct kernel queue d = elim (Bool-cases (queued kernel queue)) [
  | inl there ↦ rw there (d, there)
  | inr new ↦ rw new (append-IsDistinct kernel queue new d, queued_last kernel queue)
]
