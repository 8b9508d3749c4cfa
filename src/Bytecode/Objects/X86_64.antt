-- ===== src/Bytecode/Objects/X86_64.antt =====
-- execsnoop-kernel/x86_64/execsnoop_kern_skel.h: the object that is embedded in it.
use cgproxy.Base.{List, [], ◌∷◌, Bytes}
use cgproxy.Bytecode.Hex.{hex}

-- A row for each line of the literal.
abbrev pub x86_64_rows : List Bytes
x86_64_rows =
    hex "7f454c460201010000000000000000000100f700010000000000000000"
    ∷ hex "0000000000000000000000d0050000000000000000000040000000000040000d00"
    ∷ hex "0100850000000e000000bf06000000000000636afcff00000000850000"
    ∷ hex "000f000000bf07000000000000b7010000000000007b1ae8ff00000000"
    ∷ hex "7b1ae0ff000000007b1ad8ff000000007b1ad0ff00000000bf"
    ∷ hex "a200000000000007020000fcffffffbfa300000000000007030000"
    ∷ hex "d0ffffff18010000000000000000000000000000b70400000100000085"
    ∷ hex "00000002000000670000002000000077000000200000005500190000000000"
    ∷ hex "bfa200000000000007020000fcffffff18010000000000000000000000"
    ∷ hex "0000008500000001000000bf080000000000001508120000000000770600"
    ∷ hex "002000000061a1fcff0000000063781c000000000063681400000000"
    ∷ hex "006318100000000000850000002300000007000000a0040000bfa10000"
    ∷ hex "0000000007010000f0ffffffb702000008000000bf03000000000000"
    ∷ hex "8500000004000000070800001800000079a3f0ff0000000007030000"
    ∷ hex "94040000bf81000000000000b7020000040000008500000004000000b7"
    ∷ hex "000000000000009500000000000000bf16000000000000850000000e00000063"
    ∷ hex "0afcff00000000bfa200000000000007020000fcffffff180100"
    ∷ hex "000000000000000000000000008500000001000000bf07000000000000150713"
    ∷ hex "00000000007961100000000000b7020000000000006d120b0000000000bf"
    ∷ hex "71000000000000b7020000100000008500000010000000bf61000000000000"
    ∷ hex "1802000000000000000000000000000018030000ffffffff00000000000000"
    ∷ hex "00bf74000000000000b7050000200000008500000019000000bfa2000000"
    ∷ hex "00000007020000fcffffff18010000000000000000000000000000850000"
    ∷ hex "0003000000b7000000000000009500000000000000010000000400000020000000"
    ∷ hex "0028000000000000040000000400000004000000800000000000000047504c"
    ∷ hex "00060705001000000000000000017a5200087c0b010c00000018"
    ∷ hex "0000001800000000000000000000008001000000000000000000001c000000340000"
    ∷ hex "000000000000000000f800000000000000000000000000000000000000000000000000000000"
    ∷ hex "0000000000000000000000ba0000000400f1ff00000000000000000000000000000000"
    ∷ hex "e90000000000030070010000000000000000000000000000e200000000000500"
    ∷ hex "c0000000000000000000000000000000db00000000000500e800000000000000000000"
    ∷ hex "0000000000000000000300030000000000000000000000000000000000000000000300"
    ∷ hex "050000000000000000000000000000000000a3000000110008000000000000000000"
    ∷ hex "040000000000000020000000110009000000000000000000040000000000000007"
    ∷ hex "0000001100070014000000000000001400000000000000180000001100070000"
    ∷ hex "0000000000000014000000000000008e0000001200030000000000000000008001"
    ∷ hex "00000000000051000000120005000000000000000000f80000000000000070000000"
    ∷ hex "00000000010000000a000000b800000000000000010000000a0000002800000000"
    ∷ hex "000000010000000a00000088000000000000000100000009000000d00000000000"
    ∷ hex "0000010000000a0000001c00000000000000010000000500000038000000000000"
    ∷ hex "000100000006000000002e7465787400706572665f657665"
    ∷ hex "6e7473006d617073007265636f726473005f766572"
    ∷ hex "73696f6e002e72656c7472616365706f696e742f"
    ∷ hex "73797363616c6c732f7379735f657869745f65"
    ∷ hex "78656376650073797363616c6c5f657869745f65"
    ∷ hex "7865637665002e72656c7472616365706f696e74"
    ∷ hex "2f73797363616c6c732f7379735f656e746572"
    ∷ hex "5f6578656376650073797363616c6c5f656e7465"
    ∷ hex "725f657865637665005f6c6963656e7365002e72"
    ∷ hex "656c2e65685f6672616d650065786563736e6f6f"
    ∷ hex "705f6b65726e2e63002e737472746162002e7379"
    ∷ hex "6d746162004c4242315f34004c4242315f33004c42"
    ∷ hex "42305f3300000000000000000000000000000000000000000000000000000000000000"
    ∷ hex "00000000000000000000000000000000000000000000000000000000000000000000cb000000"
    ∷ hex "0300000000000000000000000000000000000000e004000000000000f0000000000000"
    ∷ hex "0000000000000000000100000000000000000000000000000001000000010000000600"
    ∷ hex "0000000000000000000000000000400000000000000000000000000000000000000000000000"
    ∷ hex "0400000000000000000000000000000069000000010000000600000000000000000000"
    ∷ hex "0000000000400000000000000080010000000000000000000000000000080000000000"
    ∷ hex "0000000000000000000065000000090000000000000000000000000000000000000070"
    ∷ hex "0400000000000020000000000000000c0000000300000008000000000000001000"
    ∷ hex "0000000000002d0000000100000006000000000000000000000000000000c0010000"
    ∷ hex "00000000f800000000000000000000000000000008000000000000000000000000000000"
    ∷ hex "29000000090000000000000000000000000000000000000090040000000000003000"
    ∷ hex "0000000000000c000000050000000800000000000000100000000000000013000000"
    ∷ hex "0100000003000000000000000000000000000000b802000000000000280000000000"
    ∷ hex "0000000000000000000004000000000000000000000000000000a40000000100000003"
    ∷ hex "000000000000000000000000000000e00200000000000004000000000000000000000000"
    ∷ hex "0000000100000000000000000000000000000021000000010000000300000000000000"
    ∷ hex "0000000000000000e40200000000000004000000000000000000000000000000040000"
    ∷ hex "00000000000000000000000000b000000001000000020000000000000000000000000000"
    ∷ hex "00e8020000000000005000000000000000000000000000000008000000000000000000"
    ∷ hex "000000000000ac0000000900000000000000000000000000000000000000c004000000"
    ∷ hex "00000020000000000000000c0000000a000000080000000000000010000000000000"
    ∷ hex "00d30000000200000000000000000000000000000000000000380300000000000038"
    ∷ hex "01000000000000010000000700000008000000000000001800000000000000"
    ∷ []
