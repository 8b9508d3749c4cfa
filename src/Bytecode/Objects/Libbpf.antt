-- ===== src/Bytecode/Objects/Libbpf.antt =====
-- execsnoop-libbpf/execsnoop.skel.h: the sections of its programs in the embedded object, which is
-- too large to be written out, and their relocations.
use cgproxy.Base.{List, [], ◌∷◌, Bytes}
use cgproxy.Bytecode.Hex.{hex}

-- The section of the entry.
abbrev pub libbpf_enter_rows : List Bytes
libbpf_enter_rows =
    hex "850000000e000000bf06000000000000636afcff00000000850000"
    ∷ hex "000f000000bf07000000000000b7010000000000007b1ae8ff00000000"
    ∷ hex "7b1ae0ff000000007b1ad8ff000000007b1ad0ff00000000bf"
    ∷ hex "a200000000000007020000fcffffffbfa300000000000007030000"
    ∷ hex "d0ffffff18010000000000000000000000000000b70400000100000085"
    ∷ hex "0000000200000055001b0000000000bfa200000000000007020000fcff"
    ∷ hex "ffff180100000000000000000000000000008500000001000000bf08000000"
    ∷ hex "0000001508140000000000770600002000000061a1fcff0000000063"
    ∷ hex "781c000000000063681400000000006318100000000000850000002300"
    ∷ hex "0000b7010000e80500000f10000000000000bfa1000000000000070100"
    ∷ hex "00f0ffffffb702000008000000bf0300000000000085000000040000"
    ∷ hex "00b7010000dc05000079a3f0ff000000000f130000000000000708"
    ∷ hex "000018000000bf81000000000000b7020000040000008500000004000000"
    ∷ hex "b7000000000000009500000000000000"
    ∷ []

-- The section of the exit.
abbrev pub libbpf_exit_rows : List Bytes
libbpf_exit_rows =
    hex "bf16000000000000850000000e000000"
    ∷ hex "630afcff00000000bfa200000000000007020000fcffffff18"
    ∷ hex "0100000000000000000000000000008500000001000000bf0700000000000015"
    ∷ hex "071300000000007961100000000000b7020000000000006d120b000000"
    ∷ hex "0000bf71000000000000b7020000100000008500000010000000bf610000"
    ∷ hex "000000001802000000000000000000000000000018030000ffffffff000000"
    ∷ hex "0000000000bf74000000000000b7050000200000008500000019000000bf"
    ∷ hex "a200000000000007020000fcffffff180100000000000000000000000000"
    ∷ hex "008500000003000000b7000000000000009500000000000000"
    ∷ []

-- The relocations of the entry.
abbrev pub libbpf_enter_rels_rows : List Bytes
libbpf_enter_rels_rows =
    hex "700000000000000001" ∷ hex "00000011000000a8000000000000000100000011000000" ∷ []

-- The relocations of the exit.
abbrev pub libbpf_exit_rels_rows : List Bytes
libbpf_exit_rels_rows =
    hex "28000000000000000100"
    ∷ hex "00001100000088000000000000000100000013000000d000000000000000010000"
    ∷ hex "0011000000"
    ∷ []

-- The symbols.
abbrev pub libbpf_symbols_rows : List Bytes
libbpf_symbols_rows =
    hex "000000000000000000000000000000000000000000000000"
    ∷ hex "690100000400f1ff000000000000000000000000000000000000000003000300"
    ∷ hex "00000000000000000000000000000000a00100000000030070010000000000000000"
    ∷ hex "0000000000000000000003000500000000000000000000000000000000009201000000"
    ∷ hex "000500e80000000000000000000000000000009901000000000500c00000000000"
    ∷ hex "000000000000000000000000000003000a0000000000000000000000000000000000000000"
    ∷ hex "0003000b00000000000000000000000000000000000000000003000e00000000000000"
    ∷ hex "000000000000000000000000000003000f0000000000000000000000000000000000000000"
    ∷ hex "0003001100000000000000000000000000000000000000000003001200000000000000"
    ∷ hex "00000000000000000000000000000300180000000000000000000000000000000000000000"
    ∷ hex "0003001a00000000000000000000000000000000000000000003001c00000000000000"
    ∷ hex "000000000000000000002a01000012000300000000000000000080010000000000"
    ∷ hex "006b0000001100070000000000000000002000000000000000ed000000120005"
    ∷ hex "000000000000000000f80000000000000042000000110007002000000000000000"
    ∷ hex "20000000000000003f0100001100080000000000000000000400000000000000"
    ∷ hex "ae0000001100090000000000000000000400000000000000"
    ∷ []

-- The names of the symbols.
abbrev pub libbpf_names_rows : List Bytes
libbpf_names_rows =
    hex "002e"
    ∷ hex "64656275675f616262726576002e74657874002e"
    ∷ hex "72656c2e4254462e657874002e64656275675f72"
    ∷ hex "6e676c69737473002e64656275675f6c6f636c69"
    ∷ hex "73747300706572665f6576656e7473002e72656c"
    ∷ hex "2e64656275675f7374725f6f666673657473002e"
    ∷ hex "6d617073007265636f726473002e64656275675f"
    ∷ hex "737472002e64656275675f6c696e655f73747200"
    ∷ hex "2e72656c2e64656275675f61646472002e72656c"
    ∷ hex "2e64656275675f696e666f005f76657273696f6e"
    ∷ hex "002e6c6c766d5f61646472736967002e72656c74"
    ∷ hex "72616365706f696e742f73797363616c6c732f"
    ∷ hex "7379735f657869745f6578656376650073797363"
    ∷ hex "616c6c5f657869745f657865637665002e72656c"
    ∷ hex "7472616365706f696e742f73797363616c6c73"
    ∷ hex "2f7379735f656e7465725f657865637665007379"
    ∷ hex "7363616c6c5f656e7465725f657865637665005f"
    ∷ hex "6c6963656e7365002e72656c2e64656275675f6c"
    ∷ hex "696e65002e72656c2e64656275675f6672616d65"
    ∷ hex "0065786563736e6f6f702e6270662e63002e7374"
    ∷ hex "72746162002e73796d746162002e72656c2e4254"
    ∷ hex "46004c4242315f34004c4242315f33004c4242305f"
    ∷ hex "3300"
    ∷ []
