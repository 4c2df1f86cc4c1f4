-- ===== src/Cloud.antt =====
-- The object store behind cloudapi.h, which calls libs3: one bucket, with the documented behaviour
-- of a put, a get and a delete as laws. A put of `size` bytes takes them from the front of what its
-- callback offers; what it stores when less is offered is left open.
use cloud_file_system.Base.{ℕ, ◌≤◌, ◌≡◌, ◌≢◌, Option, some, none, length, take}
use cloud_file_system.Bytes.{Bytes, Str}

pub record Cloud : Type 1 where
  pub State : Type 0
  pub get : Str → State → Option Bytes
  pub put : Str → ℕ → Bytes → State → State
  pub delete : Str → State → State
  pub get-put_self :
      (k : Str) (size : ℕ) (bs : Bytes) (s : State)
      → size ≤ length bs
      → get k (put k size bs s) ≡ some (take size bs)
  pub get-put_ne :
      (j k : Str) (size : ℕ) (bs : Bytes) (s : State) → j ≢ k → get j (put k size bs s) ≡ get j s
  pub get-delete_self : (k : Str) (s : State) → get k (delete k s) ≡ none
  pub get-delete_ne : (j k : Str) (s : State) → j ≢ k → get j (delete k s) ≡ get j s
