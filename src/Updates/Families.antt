-- ===== src/Updates/Families.antt =====
-- The names of distributions in pickAsset of src/diag/updatechecker.cpp, by the package that they take.
use naleystogramm_core.Prelude.{List, [], ◌∷◌}
use naleystogramm_core.Prelude.Text.{Text, codes}

abbrev pub arch_family : List Text
arch_family =
    codes "arch"
    ∷ codes "artix"
    ∷ codes "manjaro"
    ∷ codes "endeavouros"
    ∷ codes "garuda"
    ∷ codes "cachyos"
    ∷ codes "blackarch"
    ∷ codes "archlabs"
    ∷ codes "archcraft"
    ∷ codes "arcolinux"
    ∷ codes "arcolinuxb"
    ∷ codes "archman"
    ∷ codes "archstrike"
    ∷ codes "bluestar"
    ∷ codes "crystal"
    ∷ codes "ctlos"
    ∷ codes "obarun"
    ∷ codes "rebornos"
    ∷ codes "anarchy"
    ∷ codes "axyl"
    ∷ codes "steamos"
    ∷ codes "holo"
    ∷ codes "parabola"
    ∷ codes "hyperbola"
    ∷ codes "kaos"
    ∷ codes "alci"
    ∷ codes "blendos"
    ∷ codes "xerolinux"
    ∷ codes "athena"
    ∷ codes "instantos"
    ∷ codes "mabox"
    ∷ codes "biglinux"
    ∷ codes "linhes"
    ∷ codes "archbang"
    ∷ codes "alfheim"
    ∷ codes "librewish"
    ∷ codes "peux"
    ∷ codes "pojde"
    ∷ codes "prism"
    ∷ codes "archex"
    ∷ codes "archlinux32"
    ∷ codes "chakra"
    ∷ codes "archphile"
    ∷ codes "archi3"
    ∷ codes "holographos"
    ∷ codes "snal"
    ∷ codes "tarch"
    ∷ codes "archsway"
    ∷ codes "antergos"
    ∷ codes "apricity"
    ∷ codes "archarm"
    ∷ codes "alarm"
    ∷ codes "sirula"
    ∷ codes "parchlinux"
    ∷ codes "subliminal"
    ∷ codes "fenix"
    ∷ codes "m-os"
    ∷ codes "mesk"
    ∷ codes "easy-arch"
    ∷ codes "bridge"
    ∷ codes "chimeraos"
    ∷ codes "holoiso"
    ∷ codes "archlinuxarm"
    ∷ []

abbrev pub debian_family : List Text
debian_family =
    codes "debian"
    ∷ codes "ubuntu"
    ∷ codes "kubuntu"
    ∷ codes "lubuntu"
    ∷ codes "xubuntu"
    ∷ codes "ubuntu-mate"
    ∷ codes "ubuntu-budgie"
    ∷ codes "ubuntukylin"
    ∷ codes "ubuntu-studio"
    ∷ codes "edubuntu"
    ∷ codes "linuxmint"
    ∷ codes "lmde"
    ∷ codes "kali"
    ∷ codes "parrot"
    ∷ codes "blackbox"
    ∷ codes "backbox"
    ∷ codes "tails"
    ∷ codes "elementary"
    ∷ codes "zorin"
    ∷ codes "pop"
    ∷ codes "popos"
    ∷ codes "pop_os"
    ∷ codes "deepin"
    ∷ codes "uos"
    ∷ codes "kylin"
    ∷ codes "neokylin"
    ∷ codes "mx"
    ∷ codes "mxlinux"
    ∷ codes "antix"
    ∷ codes "devuan"
    ∷ codes "pureos"
    ∷ codes "trisquel"
    ∷ codes "raspbian"
    ∷ codes "raspios"
    ∷ codes "raspberry"
    ∷ codes "armbian"
    ∷ codes "dietpi"
    ∷ codes "mobian"
    ∷ codes "sparky"
    ∷ codes "siduction"
    ∷ codes "neptune"
    ∷ codes "bunsenlabs"
    ∷ codes "bodhi"
    ∷ codes "knoppix"
    ∷ codes "nitrux"
    ∷ codes "regolith"
    ∷ codes "q4os"
    ∷ codes "peppermint"
    ∷ codes "lite"
    ∷ codes "linuxlite"
    ∷ codes "neon"
    ∷ codes "kdeneon"
    ∷ codes "endless"
    ∷ codes "astra"
    ∷ codes "astra-linux"
    ∷ codes "whonix"
    ∷ codes "openmediavault"
    ∷ codes "proxmox"
    ∷ codes "pve"
    ∷ codes "grml"
    ∷ codes "kanotix"
    ∷ codes "pinguyos"
    ∷ codes "lxle"
    ∷ codes "voyager"
    ∷ codes "emmabuntus"
    ∷ codes "drauger"
    ∷ codes "linuxfx"
    ∷ codes "makulu"
    ∷ codes "bento"
    ∷ codes "subgraph"
    ∷ codes "hefftor"
    ∷ codes "tuxedo"
    ∷ codes "volumio"
    ∷ codes "turnkey"
    ∷ codes "skolelinux"
    ∷ codes "debian-edu"
    ∷ codes "vinux"
    ∷ codes "nimbleux"
    ∷ codes "storm"
    ∷ codes "libranet"
    ∷ codes "xandros"
    ∷ codes "linex"
    ∷ codes "fluxbuntu"
    ∷ codes "nobara-ubuntu"
    ∷ codes "bazzite-ubuntu"
    ∷ codes "chromeos-flex"
    ∷ codes "cloudready"
    ∷ codes "rpd"
    ∷ codes "pios"
    ∷ codes "pios-lite"
    ∷ codes "risiOS-debian"
    ∷ []

abbrev pub rpm_family : List Text
rpm_family =
    codes "fedora"
    ∷ codes "rhel"
    ∷ codes "centos"
    ∷ codes "centos-stream"
    ∷ codes "rocky"
    ∷ codes "almalinux"
    ∷ codes "oracle"
    ∷ codes "oraclelinux"
    ∷ codes "scientific"
    ∷ codes "sl"
    ∷ codes "springdale"
    ∷ codes "eurolinux"
    ∷ codes "clearos"
    ∷ codes "cloudlinux"
    ∷ codes "opensuse"
    ∷ codes "opensuse-leap"
    ∷ codes "opensuse-tumbleweed"
    ∷ codes "opensuse-microos"
    ∷ codes "opensuse-kubic"
    ∷ codes "microos"
    ∷ codes "suse"
    ∷ codes "sle"
    ∷ codes "sled"
    ∷ codes "sles"
    ∷ codes "geckolinux"
    ∷ codes "mageia"
    ∷ codes "openmandriva"
    ∷ codes "rosa"
    ∷ codes "pclinuxos"
    ∷ codes "turbolinux"
    ∷ codes "vine"
    ∷ codes "alt"
    ∷ codes "altlinux"
    ∷ codes "alt-server"
    ∷ codes "alt-workstation"
    ∷ codes "alt-education"
    ∷ codes "alt-kworkstation"
    ∷ codes "simply-linux"
    ∷ codes "amzn"
    ∷ codes "amazon"
    ∷ codes "amazonlinux"
    ∷ codes "nobara"
    ∷ codes "ultramarine"
    ∷ codes "bazzite"
    ∷ codes "aurora"
    ∷ codes "bluefin"
    ∷ codes "onyx"
    ∷ codes "sericea"
    ∷ codes "vauxite"
    ∷ codes "lazos"
    ∷ codes "silverblue"
    ∷ codes "kinoite"
    ∷ codes "fedora-silverblue"
    ∷ codes "fedora-kinoite"
    ∷ codes "coreos"
    ∷ codes "fcos"
    ∷ codes "rhcos"
    ∷ codes "fedora-coreos"
    ∷ codes "flatcar"
    ∷ codes "cos"
    ∷ codes "asahi"
    ∷ codes "asahi-linux"
    ∷ codes "qubes"
    ∷ codes "circle"
    ∷ codes "navynix"
    ∷ codes "berry"
    ∷ codes "risios"
    ∷ codes "opencloudos"
    ∷ codes "anolis"
    ∷ codes "openeuler"
    ∷ codes "alinux"
    ∷ codes "tencentos"
    ∷ codes "miraclelinux"
    ∷ codes "pidora"
    ∷ codes "photon"
    ∷ codes "mariner"
    ∷ codes "azurelinux"
    ∷ codes "navy"
    ∷ codes "rosa-fresh"
    ∷ []
