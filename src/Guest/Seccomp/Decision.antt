-- ===== src/Guest/Seccomp/Decision.antt =====
-- What the kernel makes of the program of fake/seccomp_filter.cpp: the instructions it executes and
-- the decision on each call.
use virtualaosp.Base.{
  ℕ, zero, suc, ◌+◌, ◌-◌, ◌*◌, ◌%◌, ◌^◌, ◌<◌, Bool, true, false, ◌&&◌, ◌||◌, List, [], ◌∷◌, ◌++◌,
  ◌≡◌, refl, ap, ◌∙◌, arith, ◌==◌, if◌then◌else◌, length, drop,
}
use virtualaosp.Guest.Seccomp.{
  SockFilter, SeccompData, ld_abs, jeq_k, ret_k, bpf_stmt, bpf_jump, offset_nr, offset_arch,
  ret_allow, ret_eperm, Abi, aud_arch, absent, denied, count_denied, rules, total, filter_program,
  Prctl, after_privs, install_seccomp_filter, aarch64, x86_64,
}

-- The kernel's interpreter, from an accumulator, with what it documents of the three instructions
-- the program has.
pub record Machine : Type 0 where
  pub run : List SockFilter → SeccompData → ℕ → ℕ
  pub run-ld_nr :
      (p : List SockFilter) (d : SeccompData) (a : ℕ)
      → run (bpf_stmt ld_abs offset_nr ∷ p) d a ≡ run p d d.nr
  pub run-ld_arch :
      (p : List SockFilter) (d : SeccompData) (a : ℕ)
      → run (bpf_stmt ld_abs offset_arch ∷ p) d a ≡ run p d d.arch
  pub run-jeq :
      (p : List SockFilter) (d : SeccompData) (a k jt jf : ℕ)
      → run (bpf_jump jeq_k k jt jf ∷ p) d a ≡ run (drop (if a == k then jt else jf) p) d a
  pub run-ret :
      (p : List SockFilter) (d : SeccompData) (a k : ℕ) → run (bpf_stmt ret_k k ∷ p) d a ≡ k

-- Whether a call's number is in a list.
unfoldable pub listed : ℕ → List ℕ → Bool
listed nr [] = false
listed nr (n ∷ nrs) = (nr == n) || listed nr nrs

-- The calls that the architecture has.
abbrev pub Present : List ℕ → Type 0
Present [] = Unit
Present (nr ∷ nrs) = (nr < absent) × Present nrs

length-rules : (nrs : List ℕ) → length (rules nrs) ≡ count_denied nrs * 2
unfolding rules count_denied
length-rules [] = refl
length-rules (nr ∷ nrs) = ground (arith, length-rules nrs)

count-Present : (nrs : List ℕ) → Present nrs → count_denied nrs ≡ length nrs
unfolding count_denied
count-Present [] p = refl
count-Present (nr ∷ nrs) (h, p) = ground (arith, count-Present nrs p)

drop-append {ℓ} : {A : Type ℓ} (n : ℕ) (xs ys : List A) → length xs ≡ n → drop n (xs ++ ys) ≡ ys
drop-append zero [] ys h = refl
drop-append zero (x ∷ xs) ys h = absurd (omega arith)
drop-append (suc n) [] ys h = absurd (omega arith)
drop-append (suc n) (x ∷ xs) ys h = drop-append n xs ys (omega arith)

either_denies :
    (b l : Bool)
    → (if b then ret_eperm else (if l then ret_eperm else ret_allow))
      ≡ (if b || l then ret_eperm else ret_allow)
either_denies true l = refl
either_denies false l = refl

after_test :
    (m : Machine) (rest : List SockFilter) (d : SeccompData) (a : ℕ) (b : Bool)
    → m.run (drop (if b then 0 else 1) (bpf_stmt ret_k ret_eperm ∷ rest)) d a
      ≡ (if b then ret_eperm else m.run rest d a)
after_test m rest d a true = m.run-ret rest d a ret_eperm
after_test m rest d a false = refl

-- The walk down the rules, from the number in the accumulator.
run-rules :
    (m : Machine) (nrs : List ℕ) (d : SeccompData)
    → Present nrs
    → m.run (rules nrs ++ (bpf_stmt ret_k ret_allow ∷ [])) d d.nr
      ≡ (if listed d.nr nrs then ret_eperm else ret_allow)
unfolding rules listed
run-rules m [] d p = m.run-ret [] d d.nr ret_allow
run-rules m (nr ∷ nrs) d (h, p) =
    let absent_not : (nr == absent) ≡ false = ground arith in
    let whole : nr % 2 ^ 32 ≡ nr = omega arith in
    let rest = rules nrs ++ (bpf_stmt ret_k ret_allow ∷ []) in
    rw (absent_not, whole)
      (m.run-jeq (bpf_stmt ret_k ret_eperm ∷ rest) d d.nr nr 0 1
        ∙ after_test m rest d d.nr (d.nr == nr)
        ∙ ap (λ r. if d.nr == nr then ret_eperm else r) (run-rules m nrs d p)
        ∙ either_denies (d.nr == nr) (listed d.nr nrs))

after_arch :
    (m : Machine) (nrs : List ℕ) (d : SeccompData) (a n : ℕ) (b : Bool)
    → Present nrs
    → suc (length (rules nrs)) ≡ n
    → m.run
        (drop
          (if b then 0 else n)
          (bpf_stmt ld_abs offset_nr ∷ (rules nrs ++ (bpf_stmt ret_k ret_allow ∷ []))))
        d
        a
      ≡ (if b && listed d.nr nrs then ret_eperm else ret_allow)
after_arch m nrs d a n true p e =
    m.run-ld_nr (rules nrs ++ (bpf_stmt ret_k ret_allow ∷ [])) d a ∙ run-rules m nrs d p
after_arch m nrs d a n false p e =
    ap (λ prog. m.run prog d a)
      (drop-append n (bpf_stmt ld_abs offset_nr ∷ rules nrs) (bpf_stmt ret_k ret_allow ∷ []) e)
    ∙ m.run-ret [] d a ret_allow

run-filter :
    (m : Machine) (arch : ℕ) (nrs : List ℕ) (d : SeccompData) (a : ℕ)
    → Present nrs
    → length nrs < 127
    → m.run (filter_program arch nrs) d a
      ≡ (if (d.arch == arch) && listed d.nr nrs then ret_eperm else ret_allow)
unfolding filter_program total
run-filter m arch nrs d a p h =
    let n = (3 + count_denied nrs * 2 + 1 - 3) % 2 ^ 8 in
    let rest = rules nrs ++ (bpf_stmt ret_k ret_allow ∷ []) in
    m.run-ld_arch (bpf_jump jeq_k arch 0 n ∷ bpf_stmt ld_abs offset_nr ∷ rest) d a
    ∙ m.run-jeq (bpf_stmt ld_abs offset_nr ∷ rest) d d.arch arch 0 n
    ∙ after_arch m nrs d d.arch n (d.arch == arch) p
        (omega (arith, length-rules nrs, count-Present nrs p))

denied-Present : (abi : Abi) → Present (denied abi)
unfolding denied
denied-Present aarch64 = ground arith
denied-Present x86_64 = ground arith

denied_short : (abi : Abi) → length (denied abi) < 127
unfolding denied
denied_short aarch64 = omega arith
denied_short x86_64 = omega arith

-- On either architecture, from any accumulator, the program that `install_seccomp_filter` hands to
-- the kernel fails a call with EPERM exactly if the call is made through the architecture's own
-- interface and its number is in the denylist, and allows every other call.
pub run-filter_program :
    (m : Machine) (abi : Abi) (d : SeccompData) (a : ℕ)
    → m.run (filter_program (aud_arch abi) (denied abi)) d a
      ≡ (if (d.arch == aud_arch abi) && listed d.nr (denied abi) then ret_eperm else ret_allow)
run-filter_program m abi d a =
    run-filter m (aud_arch abi) (denied abi) d a (denied-Present abi) (denied_short abi)

program_size :
    (abi : Abi) → (length (filter_program (aud_arch abi) (denied abi)) == total (denied abi)) ≡ true
unfolding filter_program total rules count_denied denied aud_arch
program_size aarch64 = refl
program_size x86_64 = refl

install_lem :
    (P : Prctl) (abi : Abi) (w : P.World)
    → install_seccomp_filter P abi w
      ≡ after_privs P (filter_program (aud_arch abi) (denied abi)) (P.set_no_new_privs w)
unfolding install_seccomp_filter
install_lem P abi w =
    ap
      (λ b.
        if b
        then after_privs P (filter_program (aud_arch abi) (denied abi)) (P.set_no_new_privs w)
        else (false, w))
      (program_size abi)

privs_refused :
    (P : Prctl) (prog : List SockFilter) (r : Bool × P.World)
    → r.0 ≡ false
    → after_privs P prog r ≡ (false, r.1)
privs_refused P prog (false, w) h = refl
privs_refused P prog (true, w) h = cc (h)

privs_granted :
    (P : Prctl) (prog : List SockFilter) (r : Bool × P.World)
    → r.0 ≡ true
    → after_privs P prog r ≡ P.set_seccomp prog r.1
privs_granted P prog (false, w) h = cc (h)
privs_granted P prog (true, w) h = refl

-- The size test of `install_seccomp_filter` never fails: the function returns false without a
-- filter if PR_SET_NO_NEW_PRIVS fails, and otherwise returns what PR_SET_SECCOMP answers to the
-- whole program of the denylist.
pub install_seccomp_filter_installs :
    (P : Prctl) (abi : Abi) (w : P.World)
    → ((P.set_no_new_privs w).0 ≡ false
        → install_seccomp_filter P abi w ≡ (false, (P.set_no_new_privs w).1))
      × ((P.set_no_new_privs w).0 ≡ true
          → install_seccomp_filter P abi w
            ≡ P.set_seccomp (filter_program (aud_arch abi) (denied abi)) (P.set_no_new_privs w).1)
install_seccomp_filter_installs P abi w =
    let prog = filter_program (aud_arch abi) (denied abi) in
    (
      (λ h. install_lem P abi w ∙ privs_refused P prog (P.set_no_new_privs w) h),
      (λ h. install_lem P abi w ∙ privs_granted P prog (P.set_no_new_privs w) h),
    )
