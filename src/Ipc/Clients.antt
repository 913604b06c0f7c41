-- ===== src/Ipc/Clients.antt =====
-- The client table of IpcServer in core/ipc.cpp: what AcceptLoop, DropClient, Stop and Broadcast do
-- to the vector of descriptors under its lock. A descriptor is a number.
use virtualaosp.Base.{
  ℕ, suc, ◌-◌, List, [], ◌∷◌, ◌++◌, ◌≡◌, ◌≢◌, refl, ◌∙◌, inl, inr, arith, ◌==◌, if◌then◌else◌,
  Bool-cases,
}
use virtualaosp.Ipc.Send.{Status, sent}

-- `clients.push_back(c)`
unfoldable pub push_client : List ℕ → ℕ → List ℕ
push_client clients fd = clients ++ (fd ∷ [])

-- `clients.back()`, and the vector after `pop_back()`.
unfoldable pub split_back : ℕ → List ℕ → List ℕ × ℕ
split_back c [] = ([], c)
split_back c (d ∷ clients) = let (front, back) = split_back d clients in (c ∷ front, back)

-- `clients[i] = clients.back(); clients.pop_back();` at the head of the rest of the vector.
abbrev pub replace_with_back : List ℕ → List ℕ
replace_with_back [] = []
replace_with_back (d ∷ clients) = let (front, back) = split_back d clients in back ∷ front

-- The loop of DropClient: the first slot with the descriptor.
unfoldable pub drop_client : ℕ → List ℕ → List ℕ
unfolding split_back
drop_client fd [] = []
drop_client fd (c ∷ clients) =
    let later = drop_client fd clients in if c == fd then replace_with_back clients else c ∷ later

-- Broadcast: what Send answered for each client of the copied table, in order.
unfoldable pub delivered : List (ℕ × Status) → ℕ
delivered [] = 0
delivered ((fd, status) ∷ rest) = elim status [ sent ↦ suc (delivered rest) | _ ↦ delivered rest ]

-- How often a descriptor is in the table.
unfoldable pub count : ℕ → List ℕ → ℕ
count fd [] = 0
count fd (c ∷ clients) = if c == fd then suc (count fd clients) else count fd clients

count-split_back :
    (fd c : ℕ) (clients : List ℕ)
    → count fd ((split_back c clients).1 ∷ (split_back c clients).0) ≡ count fd (c ∷ clients)
unfolding split_back count
count-split_back fd c [] = refl
count-split_back fd c (d ∷ clients) = ground (arith, count-split_back fd d clients)

count-replace_with_back :
    (fd : ℕ) (clients : List ℕ) → count fd (replace_with_back clients) ≡ count fd clients
unfolding count
count-replace_with_back fd [] = refl
count-replace_with_back fd (d ∷ clients) = count-split_back fd d clients

-- DropClient takes exactly one entry of the descriptor out of the table if there is one, and
-- keeps every other descriptor as often as it was there, in another order perhaps.
pub count-drop_client :
    (fd other : ℕ) (clients : List ℕ)
    → (count fd (drop_client fd clients) ≡ count fd clients - 1)
      × (other ≢ fd → count other (drop_client fd clients) ≡ count other clients)
unfolding drop_client count
count-drop_client fd other [] = (refl, λ ne. refl)
count-drop_client fd other (c ∷ clients) = elim (Bool-cases (c == fd)) [
  | inl hit ↦ rw hit (
    count-replace_with_back fd clients ∙ omega arith,
    λ ne. ground (arith, count-replace_with_back other clients),
  )
  | inr miss ↦ rw miss (
    ground (arith, (count-drop_client fd other clients).0, miss),
    λ ne. ground (arith, (count-drop_client fd other clients).1 ne),
  )
]
