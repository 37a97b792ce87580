-- ===== src/Network/Kubeovn/Names.antt =====
-- The names that internal/kubevim/network/kubeovn/utils.go builds.
use Prim.Native.Nat.{◌/◌, ◌%◌}
use kube_vim.Common.{String, ℕ, zero, suc, ltb, num_eq, if◌then◌else◌, ◌<>◌}

unfoldable pub format_subnet_name : String → String → String
format_subnet_name network_name subnet_name = network_name <> ("-subnet-" <> subnet_name)

unfoldable pub format_net_attach_name : String → String
format_net_attach_name subnet_name = subnet_name <> "-netattach"

unfoldable pub format_net_attach_kube_ovn_provider : String → String → String
format_net_attach_kube_ovn_provider net_attach_name namespace =
    net_attach_name <> ("." <> (namespace <> ".ovn"))

unfoldable pub format_net_attach_config : String → String → String
unfolding format_net_attach_kube_ovn_provider
format_net_attach_config net_attach_name namespace =
    "{\n\"cniVersion\": \"0.3.0\",\n\"type\": \"kube-ovn\",\n"
    <> ("\"server_socket\": \"/run/openvswitch/kube-ovn-daemon.sock\",\n\"provider\": \""
        <> (format_net_attach_kube_ovn_provider net_attach_name namespace <> "\"\n}"))

digit : ℕ → String
digit n =
    if num_eq n 0
    then "0"
    else if num_eq n 1
    then "1"
    else if num_eq n 2
    then "2"
    else if num_eq n 3
    then "3"
    else if num_eq n 4
    then "4"
    else if num_eq n 5
    then "5"
    else if num_eq n 6
    then "6"
    else if num_eq n 7
    then "7"
    else if num_eq n 8
    then "8"
    else "9"

decimal : ℕ → ℕ → String
decimal zero n = ""
decimal (suc fuel) n =
    let front = decimal fuel (n / 10) in if ltb n 10 then digit n else front <> digit (n % 10)

-- `strconv.Itoa` of an index. A number has at most as many digits as itself and one more.
unfoldable pub itoa : ℕ → String
unfolding decimal digit
itoa n = decimal (suc n) n
