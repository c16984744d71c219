-- ===== src/Agent/Prompt.antt =====
-- What src/ironbench/agent.py asks of the model: the system prompts and `_first_prompt`.
use ironharness.Prelude.{Bool, true, false, List, [], ◌∷◌, ◌++◌, Bytes}
use ironharness.Prelude.Text.{codes}

-- What a prompt reads of a task; `on_plant` is target == "plant".
pub record Asked : Type 0 where
  pub on_plant : Bool
  pub description : Bytes
  pub device_modules : List Bytes
  pub api_hint : Bytes
  pub notes : List Bytes

unfoldable pub system_prompt : Bool → Bytes
system_prompt true =
    codes "You are a control-systems engineer. You write a Python controller as a function "
    ++ (codes "control(t, y, setpoint). Reply with exactly one ```python block containing the full "
        ++ codes "main.py code, no explanations.")
system_prompt false =
    codes "You are an embedded engineer. You write MicroPython firmware for ESP32 as a single "
    ++ (codes "top-level script. Reply with exactly one ```python block containing the full "
        ++ codes "main.py code, no explanations.")

-- The texts behind each other, each behind the first with something in front.
unfoldable pub behind : Bytes → List Bytes → Bytes
behind front [] = []
behind front (text ∷ texts) = front ++ (text ++ behind front texts)

unfoldable pub modules_part : List Bytes → Bytes
modules_part [] = []
modules_part (m ∷ ms) =
    10
    ∷ 10
    ∷ (codes "Device environment (IMPORTANT): the board runs bare "
        ++ (codes "MicroPython with NO third-party libraries and no package "
            ++ (codes "installer - you must implement any device protocol yourself. "
                ++ (codes "Modules available on the device: "
                    ++ ((m ++ behind (codes ", ") ms) ++ codes ".")))))

unfoldable pub hint_part : Bytes → Bytes
hint_part [] = []
hint_part (c ∷ cs) = 10 ∷ 10 ∷ (codes "Known-good imports for this board:" ++ 10 ∷ c ∷ cs)

unfoldable pub notes_part : List Bytes → Bytes
notes_part [] = []
notes_part (n ∷ ns) =
    10
    ∷ 10
    ∷ (codes "Expert notes from the bench team:"
        ++ 10 ∷ (codes "- " ++ (n ++ behind (10 ∷ codes "- ") ns)))

unfoldable pub base_part : Bool → Bytes
base_part true =
    codes "Write the complete code of the main.py file - the controller of the "
    ++ (codes "closed-loop system as a control(t, y, setpoint) function. "
        ++ codes "The answer must be a single ```python block with the complete code.")
base_part false =
    codes "Write the complete code of the main.py file for MicroPython ESP32. "
    ++ (codes "Printing to serial is a regular print(). "
        ++ codes "The answer must be a single ```python block with the complete code.")

unfoldable pub first_prompt : Asked → Bytes
first_prompt task =
    codes "Task: "
    ++ (task.description
        ++ (10
            ∷ 10
            ∷ (base_part task.on_plant
                ++ (modules_part task.device_modules
                    ++ (hint_part task.api_hint ++ notes_part task.notes)))))
