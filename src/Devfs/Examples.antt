-- ===== src/Devfs/Examples.antt =====
-- Two devices for src/fs/dev_vfs.c, and the theorem about registering.
use cobj_os.Prelude.{ℕ, ◌≡◌, ◌≢◌, refl, Option, some, List, [], ◌∷◌, arith}
use cobj_os.Text.{strcmp}
use cobj_os.Text.Strings.{IsString, terminated}
use cobj_os.Devfs.{DevfsEntry, DeviceNode, devfs_lookup, devfs_register}
use cobj_os.Devfs.Register.{entry_of, devfs_lookup-register}

abbrev tty : List ℕ
tty = b't' ∷ b't' ∷ b'y' ∷ []

abbrev fb : List ℕ
fb = b'f' ∷ b'b' ∷ []

fb-IsString : IsString fb
fb-IsString = (λ e. omega (arith, e), (λ e. omega (arith, e), tt))

abbrev one_device : List DevfsEntry
one_device = entry_of tty 1 0 ∷ []

devfs_lookup-register_example :
    (entries' : List DevfsEntry) × (devfs_register (terminated fb []) 2 7 one_device
      ≡ some entries')
    × (devfs_lookup (terminated fb []) entries'
        ≡ some (some (record { ops = 2; info = 7; refcount = 1 })))
    × ((t z : List ℕ) (r : Option DeviceNode)
        → IsString t
        → t ≢ fb
        → devfs_lookup (terminated t z) one_device ≡ some r
        → devfs_lookup (terminated t z) entries' ≡ some r)
unfolding devfs_lookup strcmp
devfs_lookup-register_example =
    devfs_lookup-register fb [] [] 2 7 one_device fb-IsString (omega arith) (omega arith) refl
