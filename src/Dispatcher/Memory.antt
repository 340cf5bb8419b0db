-- ===== src/Dispatcher/Memory.antt =====
-- A broker in memory that meets the interface, and a way to write UUIDs as texts.
use task_mesh.Base.{◌≡◌, refl, true, List, [], ◌∷◌, ◌++◌, Option, none, some, arith, if◌then◌else◌}
use task_mesh.Text.{Text, same_text}
use task_mesh.Model.{Uuid}
use task_mesh.Dispatcher.{UuidText, Broker}

-- Each message with its queue, oldest first.
abbrev pub messages : Text → List (Text × Text) → List Text
messages q [] = []
messages q ((queue, arg) ∷ rest) =
    if same_text queue q then arg ∷ messages q rest else messages q rest

pub messages-append :
    (q queue arg : Text) (s : List (Text × Text))
    → messages q (s ++ (queue, arg) ∷ [])
      ≡ (if same_text queue q then messages q s ++ arg ∷ [] else messages q s)
messages-append q queue arg [] = ground arith
messages-append q queue arg ((r, a) ∷ s) = ground (arith, messages-append q queue arg s)

abbrev pub local_broker : Broker
local_broker = record {
  Queues = List (Text × Text);
  pending = messages;
  apply_async = λ arg queue s. (true, s ++ (queue, arg) ∷ []);
  pending-apply_async = λ q queue arg s sent. messages-append q queue arg s;
}

-- One character for each UUID.
abbrev pub read_character : Text → Option Uuid
read_character (u ∷ []) = some u
read_character _ = none

abbrev pub characters : UuidText
characters = record { print = λ u. u ∷ []; parse = read_character; parse-print = λ u. refl }
