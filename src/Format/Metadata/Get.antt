-- ===== src/Format/Metadata/Get.antt =====
-- What can be read after a write to the metadata.
use gogguf.Base.{◌≡◌, refl, some, [], ◌∷◌, arith, if◌then◌else◌}
use gogguf.Base.Bytes.{Bytes, equal, equal_iff}
use gogguf.Format.Types.{Value, Metadata}
use gogguf.Format.Metadata.{lookup, insert}

-- A read of the metadata after a write gives the written value at its name, and what stood there
-- before at any other name.
pub lookup-insert :
    (k j : Bytes) (v : Value) (md : Metadata)
    → lookup j (insert k v md) ≡ (if equal k j then some v else lookup j md)
unfolding lookup insert
lookup-insert k j v [] = refl
lookup-insert k j v ((i, w) ∷ md) =
    ground (arith, equal_iff k j, equal_iff i k, equal_iff i j, lookup-insert k j v md)
