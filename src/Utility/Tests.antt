-- ===== src/Utility/Tests.antt =====
-- utility.c at concrete inputs, and the theorems at inputs where their hypotheses hold.
use client_worker_thread_poo.Base.{◌≡◌, refl, some, [], codes}
use client_worker_thread_poo.Base.Int.{pos}
use client_worker_thread_poo.Utility.Words.{strchr, first_word, three_words}
use client_worker_thread_poo.Utility.Decimal.{decimal, decimal_loop}
use client_worker_thread_poo.Utility.Transfer.{recv_loop, recv_all}
use client_worker_thread_poo.Utility.Drip.{drip, drip_recv}

upload_line : first_word (codes "UPLOAD my notes") ≡ (codes "UPLOAD", codes "my notes")
unfolding first_word strchr
upload_line = refl

three_words_lem :
    three_words (codes "SIGNUP ann secret") ≡ (codes "SIGNUP", codes "ann", codes "secret")
unfolding three_words first_word strchr
three_words_lem = refl

forty_two : decimal 42 ≡ codes "42"
unfolding decimal decimal_loop
forty_two = refl

abbrev line : drip.State
line = (codes "abcdef", [])

four_received : recv_all drip 4 line ≡ some (pos 4, codes "abcd", (codes "ef", []))
unfolding recv_all recv_loop drip_recv
four_received = refl
