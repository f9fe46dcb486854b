-- ===== src/Livox/Listener/Watched.antt =====
-- What the listener of the lidar client writes, calls and asks.
use mandeye_controller.Prelude.{
  ℕ, suc, ◌≡◌, ◌↔◌, ◌⊎◌, inl, inr, refl, sym, ap, is_some, ◌==◌, ==_iff, ◌∙◌, Bool, true, false,
  Option, none, some, List, [], ◌∷◌, ◌++◌, length, Text, codes, Among, arith, Bool-cases,
  starts_with, if◌then◌else◌,
}
use Prim.Native.String.{String}
use mathlib.Core.Path.{subst}
use mandeye_controller.Prelude.Assoc.{lookup}
use mandeye_controller.Prelude.Int.{ℤ}
use mandeye_controller.Livox.{Client}
use mandeye_controller.Livox.Listener.Config.{config}
use mandeye_controller.Livox.Listener.{
  sdk_init, set_point_cloud_callback, set_imu_data_callback, set_info_change_callback,
  start_watch_thread, query_internal_info, set_work_mode, placeholder, replace_all, start_listener,
  normal, is_normal, wake, ask_all, test_round,
}
use mandeye_controller.Livox.Listener.Replaced.{replaced, replace_all-replaced}

-- The pieces with the text between them.
abbrev pub joined : Text → List String → Text
joined between [] = []
joined between (piece ∷ []) = codes piece
joined between (piece ∷ rest) = codes piece ++ (between ++ joined between rest)

-- What stands between the placeholders of the configuration.
abbrev pub pieces : List String
pieces =
    "\n{\n\t\"MID360\": {\n\t\t\"lidar_net_info\" : {\n\t\t\t\"cmd_data_port\": 56100,\n\t\t\t\"push_msg_port\": 56200,\n\t\t\t\"point_data_port\": 56300,\n\t\t\t\"imu_data_port\": 56400,\n\t\t\t\"log_data_port\": 56500\n\t\t},\n\t\t\"host_net_info\" : {\n\t\t\t\"cmd_data_ip\" : \""
    ∷ "\",\n\t\t\t\"cmd_data_port\": 56101,\n\t\t\t\"push_msg_ip\": \""
    ∷ "\",\n\t\t\t\"push_msg_port\": 56201,\n\t\t\t\"point_data_ip\": \""
    ∷ "\",\n\t\t\t\"point_data_port\": 56301,\n\t\t\t\"imu_data_ip\" : \""
    ∷ "\",\n\t\t\t\"imu_data_port\": 56401,\n\t\t\t\"log_data_ip\" : \""
    ∷ "\",\n\t\t\t\"log_data_port\": 56501\n\t\t}\n\t},\n\t\"HAP\": {\n\t\t\"lidar_net_info\" : {\n\t\t\t\"cmd_data_port\": 56000,\n\t\t\t\"push_msg_port\": 0,\n\t\t\t\"point_data_port\": 57000,\n\t\t\t\"imu_data_port\": 58000,\n\t\t\t\"log_data_port\": 59000\n\t\t},\n\t\t\"host_net_info\" : {\n\t\t\t\"cmd_data_ip\" : \""
    ∷ "\",\n\t\t\t\"cmd_data_port\": 56000,\n\t\t\t\"push_msg_ip\": \"\",\n\t\t\t\"push_msg_port\": 0,\n\t\t\t\"point_data_ip\": \""
    ∷ "\",\n\t\t\t\"point_data_port\": 57000,\n\t\t\t\"imu_data_ip\" : \""
    ∷ "\",\n\t\t\t\"imu_data_port\": 58000,\n\t\t\t\"log_data_ip\" : \"\",\n\t\t\t\"log_data_port\": 59000\n\t\t}\n\t}\n}\n\n"
    ∷ []

config-joined : config ≡ joined placeholder pieces
unfolding config
config-joined = refl

replaced-config : (host : Text) → replaced placeholder host 0 config ≡ joined host pieces
unfolding config replaced starts_with
replaced-config host = refl

-- For every address: the configuration file is the client's text with the address in place of each
-- placeholder, and the SDK's callbacks are set and the watching thread is started exactly when the
-- SDK accepts this file, which is also what is returned and noted.
pub start_listener-calls :
    (accepts : Text → Bool) (host : Text) (c : Client)
    → let file = joined host pieces in
      (config ≡ joined placeholder pieces)
      × (start_listener accepts host c
          ≡ some (
            (accepts file, record c { init_succes = accepts file }),
            sdk_init file
                ∷ (if accepts file
                    then set_point_cloud_callback ∷ set_imu_data_callback ∷ set_info_change_callback
                      ∷ start_watch_thread ∷ []
                    else []),
          ))
unfolding start_listener
start_listener-calls accepts host c =
    let file = joined host pieces in
    let filled : replace_all (suc (length config)) config placeholder host ≡ some file =
      replace_all-replaced (suc (length config)) config placeholder host refl (omega arith)
      ∙ ap some (replaced-config host) in
    (
      config-joined,
      rw filled (elim (Bool-cases (accepts file)) [
        | inl accepted ↦ rw accepted refl
        | inr refused ↦ rw refused refl
      ]),
    )

Among-append :
    {A : Type 0} (a : A) (xs ys : List A) → Among a (xs ++ ys) ↔ (Among a xs ⊎ Among a ys)
Among-append a [] ys = (inr, λ h. elim h [ inl m ↦ absurd m | inr m ↦ m ])
Among-append a (x ∷ xs) ys = (
  λ h. elim h [
    | inl e ↦ inl (inl e)
    | inr m ↦ elim ((Among-append a xs ys).0 m) [ inl n ↦ inl (inr n) | inr n ↦ inr n ]
  ],
  λ h. elim h [
    | inl m ↦ elim m [ inl e ↦ inl e | inr n ↦ inr ((Among-append a xs ys).1 (inl n)) ]
    | inr m ↦ inr ((Among-append a xs ys).1 (inr m))
  ],
)

-- A lidar whose work mode is known and not normal.
abbrev pub Sleeps : Option ℤ → Type 0
Sleeps none = ⊥
Sleeps (some mode) = is_normal mode ≡ false

wake-sends :
    (handle h m : ℕ) (o : Option ℤ)
    → Among (set_work_mode h m) (wake handle o) ↔ ((handle ≡ h) × (m ≡ normal) × Sleeps o)
wake-sends handle h m none = (λ a. absurd a, λ (e, n, s). absurd s)
wake-sends handle h m (some mode) = elim (Bool-cases (is_normal mode)) [
  | inl awake ↦ rw awake (λ a. absurd a, λ (e, n, s). cc)
  | inr asleep ↦
      rw asleep ((λ a. elim a [ inl e ↦ (cc, cc, refl) | inr n ↦ absurd n ]), (λ (e, n, s). inl cc))
]

-- The handle has an entry.
abbrev pub Known : ℕ → List (ℕ × Text) → Type 0
Known h l = is_some (lookup h l) ≡ true

Known-cons :
    (h k : ℕ) (sn : Text) (l : List (ℕ × Text)) → Known h ((k, sn) ∷ l) ↔ ((k ≡ h) ⊎ Known h l)
unfolding lookup
Known-cons h k sn l = elim (Bool-cases (k == h)) [
  | inl same ↦ rw same ((λ a. inl ((==_iff k h).0 same)), (λ a. refl))
  | inr other ↦
      rw other ((λ a. inr a), (λ a. elim a [ inl e ↦ absurd (ground arith) | inr known ↦ known ]))
]

ask_all-wakes :
    (modes : List (ℕ × ℤ)) (l : List (ℕ × Text)) (h m : ℕ)
    → Among (set_work_mode h m) (ask_all modes l)
      ↔ ((m ≡ normal) × Sleeps (lookup h modes) × Known h l)
unfolding ask_all lookup
ask_all-wakes modes [] h m = (λ a. absurd a, λ (n, s, known). cc)
ask_all-wakes modes ((k, sn) ∷ l) h m =
    let here = wake-sends k h m (lookup k modes) in
    let later = ask_all-wakes modes l h m in
    let split = Among-append (set_work_mode h m) (wake k (lookup k modes)) (ask_all modes l) in
    (
      λ a. elim a [
        | inl e ↦ absurd cc
        | inr rest ↦ elim (split.0 rest) [
          | inl sent ↦
              let (e, n, s) = here.0 sent in
              (n, subst (λ j. Sleeps (lookup j modes)) e s, (Known-cons h k sn l).1 (inl e))
          | inr more ↦
              let (n, s, known) = later.0 more in (n, s, (Known-cons h k sn l).1 (inr known))
        ]
      ],
      λ (n, s, known). inr (
          split.1 (elim ((Known-cons h k sn l).0 known) [
            | inl e ↦ inl (here.1 (e, n, subst (λ j. Sleeps (lookup j modes)) (sym e) s))
            | inr there ↦ inr (later.1 (n, s, there))
          ])),
    )

wake-asks : (handle h : ℕ) (o : Option ℤ) → ¬ (Among (query_internal_info h) (wake handle o))
wake-asks handle h none = λ a. absurd a
wake-asks handle h (some mode) = elim (Bool-cases (is_normal mode)) [
  | inl awake ↦ rw awake λ a. absurd a
  | inr asleep ↦ rw asleep λ a. elim a [ inl e ↦ cc | inr n ↦ absurd n ]
]

ask_all-asks :
    (modes : List (ℕ × ℤ)) (l : List (ℕ × Text)) (h : ℕ)
    → Among (query_internal_info h) (ask_all modes l) ↔ Known h l
unfolding ask_all lookup
ask_all-asks modes [] h = (λ a. absurd a, λ known. cc)
ask_all-asks modes ((k, sn) ∷ l) h =
    let later = ask_all-asks modes l h in
    let split = Among-append (query_internal_info h) (wake k (lookup k modes)) (ask_all modes l) in
    (
      λ a. (Known-cons h k sn l).1 (elim a [
        | inl e ↦ inl cc
        | inr rest ↦ elim (split.0 rest) [
          | inl sent ↦ absurd (wake-asks k h (lookup k modes) sent)
          | inr more ↦ inr (later.0 more)
        ]
      ]),
      λ known. elim ((Known-cons h k sn l).0 known) [
        | inl e ↦ inl cc
        | inr there ↦ inr (split.1 (inr (later.1 there)))
      ],
    )

-- In every round the thread asks exactly the lidars whose serial number is known, and it sets the
-- work mode of exactly those of them whose mode is known and not normal, to normal.
pub test_round-calls :
    (c : Client) (h m : ℕ)
    → (Among (query_internal_info h) (test_round c) ↔ Known h c.handle_to_serial_number)
      × (Among (set_work_mode h m) (test_round c) ↔ (
          (m ≡ normal) × Sleeps (lookup h c.lidar_work_mode) × Known h c.handle_to_serial_number))
unfolding test_round
test_round-calls c h m = (
  ask_all-asks c.lidar_work_mode c.handle_to_serial_number h,
  ask_all-wakes c.lidar_work_mode c.handle_to_serial_number h m,
)
