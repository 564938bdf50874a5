-- ===== src/Vfs/Tests.antt =====
-- A registry of two file systems, and the theorems about it.
use kalinote_os.Base.{◌+◌, ◌≡◌, [], ◌∷◌, some, refl, arith, ◌==◌, if◌then◌else◌, Gives}
use kalinote_os.Vfs.{Vfs, strcmp, mount_fs, register_filesystem, unregister_filesystem}
use kalinote_os.Vfs.Registry.{
  IsRegistry, Registers, name_ne, register_filesystem-Registers, unregister_filesystem-IsRegistry,
}
use kalinote_os.Vfs.Mount.{mount_fs-registered}

-- `filesystem` at 1 and one more at 5; one with a new name stands at 7, outside the list.
abbrev two : Vfs
two = record {
  name =
      λ p. if p == 1 then (102 ∷ 115 ∷ []) else if p == 5 then (70 ∷ 65 ∷ 84 ∷ []) else (101 ∷ []);
  read_superblock = λ p. if p == 5 then 900 else 0;
  next = λ p. if p == 1 then 5 else 0;
}

two-IsRegistry : IsRegistry two (5 ∷ [])
unfolding strcmp
two-IsRegistry = record {
  chain = (refl, refl);
  distinct = (refl, (refl, tt));
  no_null = refl;
  names = ((name_ne (102 ∷ 115 ∷ []) (70 ∷ 65 ∷ 84 ∷ []) refl, tt), (tt, tt));
}

register_filesystem-Registers_example :
    Gives (Registers two (5 ∷ []) 7) (register_filesystem 3 two 7)
register_filesystem-Registers_example =
    register_filesystem-Registers 3 two (5 ∷ []) 7 two-IsRegistry refl (omega arith) (omega arith)

unregister_filesystem-IsRegistry_example :
    Gives (λ (r, v'). (r ≡ 1) × IsRegistry v' []) (unregister_filesystem 1 two 5)
unregister_filesystem-IsRegistry_example =
    unregister_filesystem-IsRegistry 1 two [] [] 5 two-IsRegistry (omega arith)

mount_fs-registered_example :
    mount_fs (λ f dpte buf. f + dpte + buf) 3 two (70 ∷ 65 ∷ 84 ∷ []) 10 2 ≡ some 912
mount_fs-registered_example =
    mount_fs-registered (λ f dpte buf. f + dpte + buf) 3 two (5 ∷ []) 5 10 2 two-IsRegistry refl
      (omega arith)
