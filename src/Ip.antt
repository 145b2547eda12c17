-- ===== src/Ip.antt =====
-- net.IP of Go's standard library: a byte slice of 4 or 16 bytes, empty for no address.
use node_util.Base.{Bool, true, false, ◌&&◌, [], ◌∷◌, ◌==◌, length, drop, take, if◌then◌else◌}
use node_util.Node.{Ip}

unfoldable pub same : Ip → Ip → Bool
same [] [] = true
same [] (y ∷ ys) = false
same (x ∷ xs) [] = false
same (x ∷ xs) (y ∷ ys) = (x == y) && same xs ys

-- The first 12 bytes of an IPv4 address in IPv6 form.
abbrev v4_in_v6 : Ip
v4_in_v6 = 0 ∷ 0 ∷ 0 ∷ 0 ∷ 0 ∷ 0 ∷ 0 ∷ 0 ∷ 0 ∷ 0 ∷ 255 ∷ 255 ∷ []

-- `To4`, empty where Go returns nil.
unfoldable pub to4 : Ip → Ip
to4 ip =
    if length ip == 4
    then ip
    else (if (length ip == 16) && same (take 12 ip) v4_in_v6 then drop 12 ip else [])

-- `Equal`: an IPv4 address and the same address in IPv6 form are equal.
unfoldable pub equal : Ip → Ip → Bool
equal a b =
    if length a == length b
    then same a b
    else (if (length a == 4) && (length b == 16)
        then same (take 12 b) v4_in_v6 && same a (drop 12 b)
        else (if (length a == 16) && (length b == 4)
            then same (take 12 a) v4_in_v6 && same (drop 12 a) b
            else false))
