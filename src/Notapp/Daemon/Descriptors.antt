-- ===== src/Notapp/Daemon/Descriptors.antt =====
-- Which files a daemon holds.
use c380_1code.Base.{
  ℕ, zero, suc, ◌+◌, ◌≤◌, ◌<◌, ◌≡◌, ◌≢◌, refl, ◌∙◌, true, false, inl, inr, Bool-cases, Option, none,
  some, ◌==◌, leb, ltb, if◌then◌else◌, arith,
}
use c380_1code.Notapp.Daemon.{
  File, dev_null, sigchld, sigtstp, sigttou, sigttin, IsLowest, Gains, Kernel, Forked, fork_failed,
  parent, child, exited, daemon, close_unless, close_from, handle_standard, become_daemon,
  daemonize,
}

module _ {P : Type 0} (kernel : Kernel P) (sock : ℕ) where
  close_unless-keeps :
      (i j : ℕ) (p : P)
      → j ≢ i
      → kernel.descriptor (close_unless kernel sock i p) j ≡ kernel.descriptor p j
  unfolding close_unless
  close_unless-keeps i j p h = elim (Bool-cases (i == sock)) [
    | inl e ↦ rw e refl
    | inr e ↦ rw e (kernel.close_keeps i j p h)
  ]

  close_unless-sock :
      (i : ℕ) (p : P)
      → kernel.descriptor (close_unless kernel sock i p) sock ≡ kernel.descriptor p sock
  unfolding close_unless
  close_unless-sock i p = elim (Bool-cases (i == sock)) [
    | inl e ↦ rw e refl
    | inr e ↦ rw e (kernel.close_keeps i sock p (λ q. absurd (ground (arith, e, q))))
  ]

  close_unless-closed :
      (i : ℕ) (p : P) → i ≢ sock → kernel.descriptor (close_unless kernel sock i p) i ≡ none
  unfolding close_unless
  close_unless-closed i p h =
      let e : (i == sock) ≡ false = ground (arith, h) in rw e (kernel.closed i p)

  -- the loop leaves what is above its start
  close_from-above :
      (i j : ℕ) (p : P)
      → i < j
      → kernel.descriptor (close_from kernel sock i p) j ≡ kernel.descriptor p j
  unfolding close_from
  close_from-above zero j p h = close_unless-keeps 0 j p (λ e. absurd (omega (arith, e, h)))
  close_from-above (suc i) j p h =
      close_from-above i j (close_unless kernel sock (suc i) p) (omega (arith, h))
      ∙ close_unless-keeps (suc i) j p (λ e. absurd (omega (arith, e, h)))

  close_from-sock :
      (i : ℕ) (p : P)
      → kernel.descriptor (close_from kernel sock i p) sock ≡ kernel.descriptor p sock
  unfolding close_from
  close_from-sock zero p = close_unless-sock 0 p
  close_from-sock (suc i) p =
      close_from-sock i (close_unless kernel sock (suc i) p) ∙ close_unless-sock (suc i) p

  close_from-closed :
      (i j : ℕ) (p : P) → j ≤ i → j ≢ sock → kernel.descriptor (close_from kernel sock i p) j ≡ none
  unfolding close_from
  close_from-closed zero j p h other =
      let e : j ≡ 0 = omega (arith, h) in rw e (close_unless-closed 0 p (rw e at other))
  close_from-closed (suc i) j p h other = elim (Bool-cases (j == suc i)) [
    | inl last ↦
        let e : j ≡ suc i = ground (arith, last) in
        rw e (
          close_from-above i (suc i) (close_unless kernel sock (suc i) p) (omega arith)
          ∙ close_unless-closed (suc i) p (rw e at other))
    | inr more ↦
        close_from-closed i j (close_unless kernel sock (suc i) p) (ground (arith, more, h)) other
  ]

  -- after the loop only the socket is open
  only_sock :
      (p : P) (j : ℕ)
      → kernel.descriptor (close_from kernel sock kernel.getdtablesize p) j
        ≡ (if j == sock then kernel.descriptor p sock else none)
  only_sock p j = elim (Bool-cases (j == sock)) [
    | inl here ↦
        let e : j ≡ sock = ground (arith, here) in
        rw (here, e) (close_from-sock kernel.getdtablesize p)
    | inr there ↦ rw there (elim (Bool-cases (leb j kernel.getdtablesize)) [
      | inl small ↦
          close_from-closed kernel.getdtablesize j p (ground (arith, small))
            (λ e. absurd (ground (arith, e, there)))
      | inr large ↦
          let above : kernel.getdtablesize < j = ground (arith, large) in
          close_from-above kernel.getdtablesize j p above
          ∙ kernel.bounded p j (omega (arith, above))
    ])
  ]

-- the first `n` descriptors are the null device, and the others as before
abbrev Fills : ℕ → (before after : ℕ → Option File) → Type 0
Fills n before after = (j : ℕ) → after j ≡ (if ltb j n then some dev_null else before j)

Fills-zero : (before : ℕ → Option File) → Fills 0 before before
Fills-zero before j = let e : ltb j 0 ≡ false = ground arith in rw e refl

Fills-IsLowest :
    (n : ℕ) (before after : ℕ → Option File)
    → Fills n before after
    → before n ≡ none
    → IsLowest after n
Fills-IsLowest n before after h free =
    let e : ltb n n ≡ false = ground arith in
    (
      h n ∙ rw e free,
      λ j lt none_there.
          let small : ltb j n ≡ true = ground (arith, lt) in
          let null_there = rw small at (h j) in absurd (ground (arith, null_there, none_there)),
    )

Fills-suc :
    (n : ℕ) (before middle after : ℕ → Option File)
    → Fills n before middle
    → Gains middle n dev_null after
    → Fills (n + 1) before after
Fills-suc n before middle after h (there, others) j = elim (Bool-cases (j == n)) [
  | inl here ↦
      let e : j ≡ n = ground (arith, here) in
      let small : ltb n (n + 1) ≡ true = ground arith in rw (e, small) there
  | inr apart ↦
      let same : ltb j (n + 1) ≡ ltb j n = ground (arith, apart) in
      rw same (others j (λ e. absurd (ground (arith, e, apart))) ∙ h j)
]

module _ {P : Type 0} (kernel : Kernel P) where
  -- the three standard descriptors are the lowest free ones
  handle_standard-Fills :
      (p : P)
      → 2 < kernel.getdtablesize
      → ((j : ℕ) → j < 3 → kernel.descriptor p j ≡ none)
      → Fills 3
          (kernel.descriptor p)
          (kernel.descriptor (handle_standard kernel (kernel.open_null p)))
  unfolding handle_standard
  handle_standard-Fills p room free =
      let d = kernel.descriptor in
      let p₀ = (kernel.open_null p).1 in
      let p₁ = kernel.dup (some 0) p₀ in
      let p₂ = kernel.dup (some 0) p₁ in
      let lowest₀ = Fills-IsLowest 0 (d p) (d p) (Fills-zero (d p)) (free 0 (omega arith)) in
      let (zeroth, gains₀) = kernel.opens p 0 (omega (arith, room)) lowest₀ in
      let fills₀ = Fills-suc 0 (d p) (d p) (d p₀) (Fills-zero (d p)) gains₀ in
      let gains₁ =
        kernel.dups p₀ 0 1 dev_null (omega (arith, room)) (fills₀ 0)
          (Fills-IsLowest 1 (d p) (d p₀) fills₀ (free 1 (omega arith))) in
      let fills₁ = Fills-suc 1 (d p) (d p₀) (d p₁) fills₀ gains₁ in
      let gains₂ =
        kernel.dups p₁ 0 2 dev_null (omega (arith, room)) (fills₁ 0)
          (Fills-IsLowest 2 (d p) (d p₁) fills₁ (free 2 (omega arith))) in
      let fills₂ : Fills 3 (d p) (d p₂) = Fills-suc 2 (d p) (d p₁) (d p₂) fills₁ gains₂ in
      rw zeroth fills₂

  become_daemon-Fills :
      (sock : ℕ) (p : P)
      → 2 < sock
      → 2 < kernel.getdtablesize
      → (j : ℕ)
      → kernel.descriptor (become_daemon kernel sock p) j
        ≡ (if ltb j 3 then some dev_null else if j == sock then kernel.descriptor p sock else none)
  unfolding become_daemon
  become_daemon-Fills sock p apart room j =
      let q = close_from kernel sock kernel.getdtablesize p in
      let only = only_sock kernel sock p in
      let free : (j : ℕ) → j < 3 → kernel.descriptor q j ≡ none =
        λ j lt. let e : (j == sock) ≡ false = ground (arith, lt, apart) in only j ∙ rw e refl in
      let p₁ = handle_standard kernel (kernel.open_null q) in
      let p₂ = kernel.umask 23 p₁ in
      let p₃ = kernel.ignore sigchld p₂ in
      let p₄ = kernel.ignore sigtstp p₃ in
      let p₅ = kernel.ignore sigttou p₄ in
      kernel.ignore_keeps sigttin p₅ j
      ∙ (kernel.ignore_keeps sigttou p₄ j
          ∙ (kernel.ignore_keeps sigtstp p₃ j
              ∙ (kernel.ignore_keeps sigchld p₂ j
                  ∙ (kernel.umask_keeps 23 p₁ j
                      ∙ (handle_standard-Fills q room free j ∙ rw (only j) refl)))))

-- In the process that both calls of `fork` leave to go on, if it was no daemon before, its socket is
-- none of the three standard descriptors and the process may have these three: `daemonize` closes
-- all descriptors but the socket, which stays as it was, and opens the null device at the standard
-- ones. In a process that is a daemon already it changes nothing; a failed `fork` ends the process
-- with the status 1, and the parent of the first one ends with 0.
pub daemonize-descriptors :
    {P : Type 0} (kernel : Kernel P) (sock : ℕ) (p : P)
    → 2 < sock
    → 2 < kernel.getdtablesize
    → (kernel.is_daemon p ≡ false
        → (q : P) × (daemonize kernel child child sock p ≡ daemon q)
          × ((j : ℕ)
              → kernel.descriptor q j ≡ (
                  if ltb j 3
                  then some dev_null
                  else if j == sock
                  then kernel.descriptor p sock
                  else none))
          × ((second : Forked) → daemonize kernel fork_failed second sock p ≡ exited 1)
          × ((second : Forked) → daemonize kernel parent second sock p ≡ exited 0))
      × (kernel.is_daemon p ≡ true
          → (first second : Forked) → daemonize kernel first second sock p ≡ daemon p)
unfolding daemonize
daemonize-descriptors kernel sock p apart room = (
  λ new. (
    become_daemon kernel sock (kernel.setsid p),
    rw new refl,
    λ j.
        become_daemon-Fills kernel sock (kernel.setsid p) apart room j
        ∙ rw (kernel.setsid_keeps p sock) refl,
    λ second. rw new refl,
    λ second. rw new refl,
  ),
  λ old first second. rw old refl,
)
