-- ===== src/Server/Start/Tests.antt =====
-- How the server starts where no call fails.
use client_worker_thread_poo.Base.{
  ◌≡◌, refl, Bool, true, false, [], Text, str_eq, str_eq_refl, some, if◌then◌else◌,
}
use client_worker_thread_poo.Base.Int.{ℤ, pos, negsuc, ltb_ℤ}
use client_worker_thread_poo.Storage.Creation.{Creator, IsCreator}
use client_worker_thread_poo.FileLocks.Defs.{free_lock}
use client_worker_thread_poo.Server.Start.{Net, IsNet, Boot, BootOf, main_start, main_start-BootOf}

-- The tables at each path.
abbrev creator : Creator
creator = record {
  State = (Text → Bool) × (Text → Bool);
  open_file = λ p s. (true, s);
  create_users = λ p s. (true, ((λ q. if str_eq p q then true else s.0 q), s.1));
  create_quotas = λ p s. (true, (s.0, (λ q. if str_eq p q then true else s.1 q)));
}

abbrev creator-IsCreator : IsCreator creator
creator-IsCreator = record {
  HasUsers = λ p s. s.0 p ≡ true;
  HasQuotas = λ p s. s.1 p ≡ true;
  users_made = λ p s e. rw (str_eq_refl p) refl;
  quotas_made = λ p s e. rw (str_eq_refl p) refl;
  open_keeps = λ p q s h. h;
  create_keeps = λ p q s h. h;
}

abbrev no_tables : (Text → Bool) × (Text → Bool)
no_tables = ((λ q. false), (λ q. false))

-- A network whose calls succeed for every descriptor that is not below 0
abbrev answer : ℤ → ℤ
answer fd = elim fd [ pos n ↦ pos 0 | negsuc n ↦ negsuc 0 ]

abbrev net : Net
net = record {
  State = Unit {0};
  socket = λ s. (pos 3, s);
  setsockopt = λ fd s. (answer fd, s);
  bind = λ fd s. (answer fd, s);
  listen = λ fd s. (answer fd, s);
}

abbrev net-IsNet : IsNet net
net-IsNet = record {
  IsOpen = λ fd s. ltb_ℤ (answer fd) (pos 0) ≡ false;
  IsBound = λ fd s. ltb_ℤ (answer fd) (pos 0) ≡ false;
  IsListening = λ fd s. ltb_ℤ (answer fd) (pos 0) ≡ false;
  socket_open = λ s h. refl;
  setsockopt_bad = λ n s. refl;
  setsockopt_open = λ fd s h. h;
  bind_bound = λ fd s h e. h;
  listen_listening = λ fd s h e. h;
}

main_start-BootOf_example :
    (b : Boot net) × ((main_start net creator []
        (λ i. free_lock)
        true
        true
        (λ i. true)
        no_tables
        tt).0
      ≡ some b)
    × BootOf net net-IsNet creator creator-IsCreator [] no_tables tt
        (main_start net creator [] (λ i. free_lock) true true (λ i. true) no_tables tt).1
        b
main_start-BootOf_example =
    main_start-BootOf net net-IsNet creator creator-IsCreator [] no_tables (λ i. free_lock) true
      true (λ i. true) tt
