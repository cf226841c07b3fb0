-- ===== src/Imaging/Mounts.antt =====
-- Mounts of agent/internal/imaging/imaging.go are taken down again.
use fos_next.Prelude.{
  true, Bytes, codes, List, [], ◌∷◌, ◌++◌, none, some, ok, ◌≡◌, refl, inl, inr, ◌↔◌, Option-cases,
  Result-cases,
}
use fos_next.World.{
  Syscall, exec, mkdir_all, remove, call, History, Env, Act, deferred, combined_output, exec_with,
  wrapped, try, checked, expect, sys, attempt, match_result, match_option, pure, fail, ◌>>=◌, ◌>>◌,
}
use fos_next.Imaging.{
  umount, tool, btrfs_mount_point, xfs_mount_point, ntfs_mount_point, shrink_btrfs, expand_btrfs,
  expand_xfs, clean_ntfs,
}

-- a run of a command without input
abbrev pub command : Bytes → List Bytes → Syscall
command name args = exec (record { name = name; args = args; stdin = [] })

-- The calls that a run from `h` adds: the mount point is made; where that works, `mount` is called;
-- where that works, too, the calls of `work` follow, the latest first, and then `umount` in any case.
pub data Tidied (env : Env) (mp : Bytes) (mount : Syscall) (work h : History)
    : History → Type 0 where
  unmade :
      (e : Bytes)
      → (env.answer h (mkdir_all mp)).fault ≡ some e
      → Tidied env mp mount work h (call (mkdir_all mp) ∷ h)
  unmounted :
      (e : Bytes)
      → (env.answer h (mkdir_all mp)).fault ≡ none
      → (env.answer (call (mkdir_all mp) ∷ h) mount).fault ≡ some e
      → Tidied env mp mount work h (call mount ∷ call (mkdir_all mp) ∷ h)
  taken_down :
      (env.answer h (mkdir_all mp)).fault ≡ none
      → (env.answer (call (mkdir_all mp) ∷ h) mount).fault ≡ none
      → Tidied env mp mount work h (
          call (command (codes "umount") (mp ∷ []))
          ∷ (work ++ (call mount ∷ call (mkdir_all mp) ∷ h)))

-- The mount point is made, the mount works, and so does `work` on it.
pub record AllFine (env : Env) (mp : Bytes) (mount work : Syscall) (h : History) : Type 0 where
  pub made : (env.answer h (mkdir_all mp)).fault ≡ none
  pub mounts : (env.answer (call (mkdir_all mp) ∷ h) mount).fault ≡ none
  pub works : (env.answer (call mount ∷ call (mkdir_all mp) ∷ h) work).fault ≡ none

-- An operation by `work` on a temporary mount takes the mount down, and returns `v` exactly if nothing
-- failed up to `work`.
abbrev pub Resized : {A : Type 0} → Env → Bytes → Syscall → Syscall → A → Act A → History → Type 0
Resized env mp mount work v m h =
    Tidied env mp mount (call work ∷ []) h (m h).1
    × (((m h).0 ≡ ok v) ↔ AllFine env mp mount work h)

-- A step that only makes the call `work`, and returns `v` exactly if it works.
abbrev Works : {A : Type 0} → Env → Syscall → A → Act A → Type 0
Works env work v m =
    (g : History)
    → ((m g).1 ≡ call work ∷ g) × (((m g).0 ≡ ok v) ↔ ((env.answer g work).fault ≡ none))

module _ (env : Env) where
  tool-Works :
      (context name : Bytes) (args : List Bytes)
      → Works env (command name args) tt (tool env context name args)
  unfolding tool expect match_option pure fail combined_output exec_with sys ◌>>=◌
  tool-Works context name args g = elim (Option-cases (env.answer g (command name args)).fault) [
    | inl n ↦ (rw n refl, ((λ _. n), λ _. rw n refl))
    | inr (e, s) ↦ (rw s refl, ((λ p. absurd (cc (rw s at p))), λ p. absurd (cc (p, s))))
  ]

  then_true-Works :
      (work : Syscall) (m : Act (Unit {0}))
      → Works env work tt m
      → Works env work true (m >> pure true)
  unfolding ◌>>=◌ pure
  then_true-Works work m k g = elim (Result-cases (m g).0) [
    | inl (u, q) ↦ (rw q (k g).0, ((λ _. (k g).1.0 q), λ _. rw q refl))
    | inr (e, q) ↦
        (rw q (k g).0, ((λ p. absurd (cc (rw q at p))), λ p. absurd (cc ((k g).1.1 p, q))))
  ]

  -- what the three operations that resize have in common
  abbrev mounted : {A : Type 0} → Bytes → Bytes → Bytes → Bytes → Bytes → Act A → Act A
  mounted made_context mount_context fstype device mp m = do
    wrapped made_context (try env (mkdir_all mp))
    tool env mount_context (codes "mount") (codes "-t" ∷ fstype ∷ device ∷ mp ∷ [])
    deferred (umount env mp) m

  mounted-Resized :
      {A : Type 0} (v : A) (made_context mount_context fstype device mp : Bytes) (work : Syscall)
      (m : Act A)
      → Works env work v m
      → (h : History)
      → Resized env mp
          (command (codes "mount") (codes "-t" ∷ fstype ∷ device ∷ mp ∷ []))
          work
          v
          (mounted made_context mount_context fstype device mp m)
          h
  unfolding tool wrapped try checked expect attempt match_result match_option pure fail
      combined_output exec_with sys ◌>>=◌ deferred umount
  mounted-Resized v made_context mount_context fstype device mp work m k h =
      let mount = command (codes "mount") (codes "-t" ∷ fstype ∷ device ∷ mp ∷ []) in
      elim (Option-cases (env.answer h (mkdir_all mp)).fault) [
        | inl n ↦ elim (Option-cases (env.answer (call (mkdir_all mp) ∷ h) mount).fault) [
          | inl n' ↦
              rw (n, n', (k _).0)
                (
                  taken_down n n',
                  (
                    (λ p. record { made = n; mounts = n'; works = (k _).1.0 p }),
                    λ a. (k _).1.1 a.works,
                  ),
                )
          | inr (e, s) ↦
              rw (n, s) (unmounted e n s, ((λ p. absurd (cc p)), λ a. absurd (cc (a.mounts, s))))
        ]
        | inr (e, s) ↦ rw s (unmade e s, ((λ p. absurd (cc p)), λ a. absurd (cc (a.made, s))))
      ]

  abbrev pub mount_call : Bytes → Bytes → Bytes → Syscall
  mount_call fstype device mp = command (codes "mount") (codes "-t" ∷ fstype ∷ device ∷ mp ∷ [])

  abbrev pub btrfs_resize : Bytes → Syscall
  btrfs_resize size =
      command (codes "btrfs") (codes "filesystem" ∷ codes "resize" ∷ size ∷ btrfs_mount_point ∷ [])

  -- `mount` as CleanNTFS runs it
  abbrev pub ntfs_3g : Bytes → Syscall
  ntfs_3g device =
      command (codes "ntfs-3g")
        (codes "-o" ∷ codes "remove_hiberfile" ∷ device ∷ ntfs_mount_point ∷ [])

  -- the removals of CleanNTFS, the latest first
  abbrev pub removals : History
  removals =
      call (remove (ntfs_mount_point ++ codes "/swapfile.sys"))
      ∷ call (remove (ntfs_mount_point ++ codes "/hiberfil.sys"))
      ∷ call (remove (ntfs_mount_point ++ codes "/pagefile.sys"))
      ∷ []

  clean_ntfs-Tidied :
      (device : Bytes) (h : History)
      → Tidied env ntfs_mount_point (ntfs_3g device) removals h (clean_ntfs env device h).1
        × ((clean_ntfs env device h).0 ≡ ok tt)
  unfolding clean_ntfs match_option pure combined_output exec_with sys ◌>>=◌ deferred umount
  clean_ntfs-Tidied device h =
      elim (Option-cases (env.answer h (mkdir_all ntfs_mount_point)).fault) [
        | inl n ↦
            elim (Option-cases
              (env.answer (call (mkdir_all ntfs_mount_point) ∷ h) (ntfs_3g device)).fault) [
                | inl n' ↦ rw (n, n') (taken_down n n', refl)
                | inr (e, s) ↦ rw (n, s) (unmounted e n s, refl)
              ]
        | inr (e, s) ↦ rw s (unmade e s, refl)
      ]

  -- The four operations on a temporary mount, on a device: the shrink and the growth of a btrfs, the
  -- growth of an xfs, and CleanNTFS. Each makes its mount point, mounts the device there, works on it,
  -- and takes the mount down again whether or not its work fails; where the mount point cannot be made,
  -- or the mount fails, nothing follows. The first three return a value exactly if nothing failed up to
  -- their work; CleanNTFS always does.
  pub mounts-Tidied :
      (device : Bytes) (h : History)
      → Resized env btrfs_mount_point
          (mount_call (codes "btrfs") device btrfs_mount_point)
          (btrfs_resize (codes "1:min"))
          true
          (shrink_btrfs env device)
          h
        × Resized env btrfs_mount_point
            (mount_call (codes "btrfs") device btrfs_mount_point)
            (btrfs_resize (codes "max"))
            tt
            (expand_btrfs env device)
            h
        × Resized env xfs_mount_point
            (mount_call (codes "xfs") device xfs_mount_point)
            (command (codes "xfs_growfs") (xfs_mount_point ∷ []))
            tt
            (expand_xfs env device)
            h
        × Tidied env ntfs_mount_point (ntfs_3g device) removals h (clean_ntfs env device h).1
        × ((clean_ntfs env device h).0 ≡ ok tt)
  unfolding shrink_btrfs expand_btrfs expand_xfs
  mounts-Tidied device h = (
    mounted-Resized true _ _ _ device _ _ _ (then_true-Works _ _ (tool-Works _ _ _)) h,
    mounted-Resized tt _ _ _ device _ _ _ (tool-Works _ _ _) h,
    mounted-Resized tt _ _ _ device _ _ _ (tool-Works _ _ _) h,
    (clean_ntfs-Tidied device h).0,
    (clean_ntfs-Tidied device h).1,
  )
