-- ===== src/SystemChar/CategoryTables.antt =====
-- DotNetAnywhere/System.Char.UC_IndexRuns.h: the categories of the code points.
use iron_net.Prelude.{ℕ, List, [], ◌∷◌}

-- UC_Index: a code point and what holds from it on, by turns.
unfoldable pub uc_index : List ℕ
uc_index =
    0 ∷ 14 ∷ 32 ∷ 32768 ∷ 48 ∷ 8 ∷ 58 ∷ 32784 ∷ 65 ∷ 0 ∷ 91 ∷ 32791 ∷ 97 ∷ 1 ∷ 123 ∷ 32797 ∷ 127
    ∷ 14 ∷ 160 ∷ 32801 ∷ 192 ∷ 0 ∷ 215 ∷ 32779 ∷ 216 ∷ 0 ∷ 223 ∷ 1 ∷ 247 ∷ 32779 ∷ 248 ∷ 1 ∷ 256
    ∷ 32833 ∷ 564 ∷ 29 ∷ 592 ∷ 1 ∷ 686 ∷ 33121 ∷ 688 ∷ 3 ∷ 697 ∷ 33141 ∷ 699 ∷ 3 ∷ 706 ∷ 27 ∷ 720
    ∷ 33143 ∷ 722 ∷ 27 ∷ 736 ∷ 3 ∷ 741 ∷ 27 ∷ 750 ∷ 33143 ∷ 751 ∷ 29 ∷ 768 ∷ 5 ∷ 847 ∷ 29 ∷ 864
    ∷ 33145 ∷ 867 ∷ 29 ∷ 884 ∷ 33148 ∷ 895 ∷ 29 ∷ 900 ∷ 33159 ∷ 913 ∷ 0 ∷ 930 ∷ 33121 ∷ 931 ∷ 0
    ∷ 940 ∷ 1 ∷ 975 ∷ 33172 ∷ 1007 ∷ 1 ∷ 1012 ∷ 29 ∷ 1024 ∷ 0 ∷ 1072 ∷ 1 ∷ 1120 ∷ 33204 ∷ 1274 ∷ 29
    ∷ 1329 ∷ 0 ∷ 1367 ∷ 33152 ∷ 1370 ∷ 24 ∷ 1376 ∷ 33121 ∷ 1377 ∷ 1 ∷ 1416 ∷ 33358 ∷ 1419 ∷ 29
    ∷ 1425 ∷ 5 ∷ 1442 ∷ 33121 ∷ 1443 ∷ 5 ∷ 1466 ∷ 33361 ∷ 1477 ∷ 29 ∷ 1488 ∷ 4 ∷ 1515 ∷ 29 ∷ 1520
    ∷ 33372 ∷ 1525 ∷ 29 ∷ 1548 ∷ 32769 ∷ 1549 ∷ 29 ∷ 1563 ∷ 33377 ∷ 1569 ∷ 4 ∷ 1595 ∷ 29 ∷ 1600
    ∷ 33143 ∷ 1601 ∷ 4 ∷ 1611 ∷ 5 ∷ 1622 ∷ 29 ∷ 1632 ∷ 8 ∷ 1642 ∷ 33383 ∷ 1649 ∷ 4 ∷ 1748 ∷ 33390
    ∷ 1750 ∷ 5 ∷ 1757 ∷ 33244 ∷ 1759 ∷ 5 ∷ 1765 ∷ 33392 ∷ 1776 ∷ 8 ∷ 1786 ∷ 33403 ∷ 1792 ∷ 24 ∷ 1806
    ∷ 33409 ∷ 1810 ∷ 4 ∷ 1837 ∷ 33150 ∷ 1840 ∷ 5 ∷ 1867 ∷ 29 ∷ 1920 ∷ 4 ∷ 1958 ∷ 5 ∷ 1969 ∷ 29
    ∷ 2305 ∷ 33413 ∷ 2309 ∷ 4 ∷ 2362 ∷ 33417 ∷ 2369 ∷ 5 ∷ 2377 ∷ 33424 ∷ 2392 ∷ 4 ∷ 2402 ∷ 33439
    ∷ 2406 ∷ 8 ∷ 2416 ∷ 32769 ∷ 2417 ∷ 29 ∷ 2433 ∷ 33443 ∷ 2437 ∷ 4 ∷ 2445 ∷ 33447 ∷ 2451 ∷ 4 ∷ 2473
    ∷ 33121 ∷ 2474 ∷ 4 ∷ 2481 ∷ 33453 ∷ 2510 ∷ 29 ∷ 2519 ∷ 33482 ∷ 2534 ∷ 8 ∷ 2544 ∷ 33497 ∷ 2548
    ∷ 10 ∷ 2554 ∷ 32807 ∷ 2555 ∷ 29 ∷ 2562 ∷ 33400 ∷ 2565 ∷ 4 ∷ 2571 ∷ 33501 ∷ 2579 ∷ 4 ∷ 2601
    ∷ 33121 ∷ 2602 ∷ 4 ∷ 2609 ∷ 33509 ∷ 2638 ∷ 29 ∷ 2649 ∷ 33538 ∷ 2655 ∷ 29 ∷ 2662 ∷ 8 ∷ 2672
    ∷ 33536 ∷ 2677 ∷ 29 ∷ 2689 ∷ 33413 ∷ 2693 ∷ 4 ∷ 2700 ∷ 33544 ∷ 2707 ∷ 4 ∷ 2729 ∷ 33121 ∷ 2730
    ∷ 4 ∷ 2737 ∷ 33448 ∷ 2741 ∷ 4 ∷ 2746 ∷ 33417 ∷ 2753 ∷ 5 ∷ 2758 ∷ 33551 ∷ 2769 ∷ 29 ∷ 2784
    ∷ 33020 ∷ 2785 ∷ 29 ∷ 2790 ∷ 8 ∷ 2800 ∷ 29 ∷ 2817 ∷ 33443 ∷ 2821 ∷ 4 ∷ 2829 ∷ 33447 ∷ 2835 ∷ 4
    ∷ 2857 ∷ 33121 ∷ 2858 ∷ 4 ∷ 2865 ∷ 33562 ∷ 2894 ∷ 29 ∷ 2902 ∷ 33591 ∷ 2918 ∷ 8 ∷ 2928 ∷ 32807
    ∷ 2929 ∷ 29 ∷ 2946 ∷ 33414 ∷ 2949 ∷ 4 ∷ 2955 ∷ 33607 ∷ 2990 ∷ 4 ∷ 2998 ∷ 33642 ∷ 3022 ∷ 29
    ∷ 3031 ∷ 33415 ∷ 3032 ∷ 29 ∷ 3047 ∷ 8 ∷ 3056 ∷ 32829 ∷ 3059 ∷ 29 ∷ 3073 ∷ 33658 ∷ 3077 ∷ 4
    ∷ 3085 ∷ 33546 ∷ 3090 ∷ 4 ∷ 3113 ∷ 33121 ∷ 3114 ∷ 4 ∷ 3124 ∷ 33121 ∷ 3125 ∷ 4 ∷ 3130 ∷ 33666
    ∷ 3150 ∷ 29 ∷ 3157 ∷ 33145 ∷ 3159 ∷ 29 ∷ 3168 ∷ 33601 ∷ 3174 ∷ 8 ∷ 3184 ∷ 29 ∷ 3202 ∷ 33444
    ∷ 3205 ∷ 4 ∷ 3213 ∷ 33546 ∷ 3218 ∷ 4 ∷ 3241 ∷ 33121 ∷ 3242 ∷ 4 ∷ 3252 ∷ 33121 ∷ 3253 ∷ 4 ∷ 3258
    ∷ 33686 ∷ 3264 ∷ 6 ∷ 3269 ∷ 33692 ∷ 3278 ∷ 29 ∷ 3285 ∷ 33421 ∷ 3287 ∷ 29 ∷ 3294 ∷ 33701 ∷ 3302
    ∷ 8 ∷ 3312 ∷ 29 ∷ 3330 ∷ 33444 ∷ 3333 ∷ 4 ∷ 3341 ∷ 33546 ∷ 3346 ∷ 4 ∷ 3369 ∷ 33121 ∷ 3370 ∷ 4
    ∷ 3386 ∷ 33709 ∷ 3406 ∷ 29 ∷ 3415 ∷ 33415 ∷ 3416 ∷ 29 ∷ 3424 ∷ 33601 ∷ 3430 ∷ 8 ∷ 3440 ∷ 29
    ∷ 3458 ∷ 33444 ∷ 3461 ∷ 4 ∷ 3479 ∷ 33150 ∷ 3482 ∷ 4 ∷ 3506 ∷ 33121 ∷ 3507 ∷ 4 ∷ 3516 ∷ 33453
    ∷ 3520 ∷ 4 ∷ 3527 ∷ 33729 ∷ 3544 ∷ 6 ∷ 3552 ∷ 29 ∷ 3570 ∷ 33746 ∷ 3573 ∷ 29 ∷ 3585 ∷ 4 ∷ 3633
    ∷ 33371 ∷ 3636 ∷ 5 ∷ 3643 ∷ 33749 ∷ 3648 ∷ 4 ∷ 3654 ∷ 33143 ∷ 3655 ∷ 5 ∷ 3663 ∷ 32769 ∷ 3664 ∷ 8
    ∷ 3674 ∷ 32769 ∷ 3676 ∷ 29 ∷ 3713 ∷ 33754 ∷ 3726 ∷ 29 ∷ 3732 ∷ 33458 ∷ 3737 ∷ 4 ∷ 3744 ∷ 33767
    ∷ 3764 ∷ 5 ∷ 3770 ∷ 33787 ∷ 3776 ∷ 4 ∷ 3781 ∷ 33153 ∷ 3784 ∷ 5 ∷ 3790 ∷ 33121 ∷ 3792 ∷ 8 ∷ 3802
    ∷ 33401 ∷ 3806 ∷ 29 ∷ 3840 ∷ 33793 ∷ 3844 ∷ 24 ∷ 3859 ∷ 28 ∷ 3864 ∷ 33145 ∷ 3866 ∷ 28 ∷ 3872 ∷ 8
    ∷ 3882 ∷ 10 ∷ 3892 ∷ 33797 ∷ 3904 ∷ 4 ∷ 3912 ∷ 33121 ∷ 3913 ∷ 4 ∷ 3947 ∷ 29 ∷ 3953 ∷ 5 ∷ 3967
    ∷ 33415 ∷ 3968 ∷ 5 ∷ 3973 ∷ 33809 ∷ 3984 ∷ 5 ∷ 3992 ∷ 33121 ∷ 3993 ∷ 5 ∷ 4029 ∷ 33121 ∷ 4030
    ∷ 28 ∷ 4038 ∷ 33145 ∷ 4039 ∷ 28 ∷ 4045 ∷ 33820 ∷ 4048 ∷ 29 ∷ 4096 ∷ 4 ∷ 4130 ∷ 33121 ∷ 4131 ∷ 4
    ∷ 4136 ∷ 33823 ∷ 4154 ∷ 29 ∷ 4160 ∷ 8 ∷ 4170 ∷ 24 ∷ 4176 ∷ 4 ∷ 4182 ∷ 33467 ∷ 4186 ∷ 29 ∷ 4256
    ∷ 0 ∷ 4294 ∷ 29 ∷ 4304 ∷ 4 ∷ 4343 ∷ 33841 ∷ 4352 ∷ 4 ∷ 4442 ∷ 29 ∷ 4447 ∷ 4 ∷ 4515 ∷ 29 ∷ 4520
    ∷ 4 ∷ 4602 ∷ 29 ∷ 4608 ∷ 4 ∷ 4615 ∷ 33121 ∷ 4616 ∷ 4 ∷ 4679 ∷ 33850 ∷ 4688 ∷ 4 ∷ 4695 ∷ 33859
    ∷ 4704 ∷ 4 ∷ 4743 ∷ 33850 ∷ 4752 ∷ 4 ∷ 4783 ∷ 33850 ∷ 4792 ∷ 4 ∷ 4799 ∷ 33850 ∷ 4808 ∷ 4 ∷ 4815
    ∷ 33121 ∷ 4816 ∷ 4 ∷ 4823 ∷ 33121 ∷ 4824 ∷ 4 ∷ 4847 ∷ 33121 ∷ 4848 ∷ 4 ∷ 4879 ∷ 33850 ∷ 4888 ∷ 4
    ∷ 4895 ∷ 33121 ∷ 4896 ∷ 4 ∷ 4935 ∷ 33121 ∷ 4936 ∷ 4 ∷ 4955 ∷ 29 ∷ 4961 ∷ 24 ∷ 4969 ∷ 8 ∷ 4978
    ∷ 10 ∷ 4989 ∷ 29 ∷ 5024 ∷ 4 ∷ 5109 ∷ 29 ∷ 5121 ∷ 4 ∷ 5741 ∷ 32769 ∷ 5743 ∷ 4 ∷ 5751 ∷ 29 ∷ 5760
    ∷ 32768 ∷ 5761 ∷ 4 ∷ 5787 ∷ 33868 ∷ 5792 ∷ 4 ∷ 5867 ∷ 33873 ∷ 5873 ∷ 29 ∷ 6016 ∷ 4 ∷ 6068
    ∷ 33421 ∷ 6071 ∷ 5 ∷ 6078 ∷ 6 ∷ 6086 ∷ 33443 ∷ 6089 ∷ 5 ∷ 6100 ∷ 24 ∷ 6107 ∷ 33879 ∷ 6112 ∷ 8
    ∷ 6122 ∷ 29 ∷ 6144 ∷ 24 ∷ 6150 ∷ 33884 ∷ 6160 ∷ 8 ∷ 6170 ∷ 29 ∷ 6176 ∷ 4 ∷ 6211 ∷ 33143 ∷ 6212
    ∷ 4 ∷ 6264 ∷ 29 ∷ 6272 ∷ 4 ∷ 6313 ∷ 33145 ∷ 6314 ∷ 29 ∷ 7680 ∷ 33894 ∷ 7829 ∷ 1 ∷ 7836 ∷ 34043
    ∷ 7930 ∷ 29 ∷ 7936 ∷ 1 ∷ 7944 ∷ 0 ∷ 7952 ∷ 1 ∷ 7958 ∷ 33121 ∷ 7960 ∷ 0 ∷ 7966 ∷ 33121 ∷ 7968 ∷ 1
    ∷ 7976 ∷ 0 ∷ 7984 ∷ 1 ∷ 7992 ∷ 0 ∷ 8000 ∷ 1 ∷ 8006 ∷ 33121 ∷ 8008 ∷ 0 ∷ 8014 ∷ 33121 ∷ 8016 ∷ 1
    ∷ 8024 ∷ 34137 ∷ 8032 ∷ 1 ∷ 8040 ∷ 0 ∷ 8048 ∷ 1 ∷ 8062 ∷ 33121 ∷ 8064 ∷ 1 ∷ 8072 ∷ 2 ∷ 8080 ∷ 1
    ∷ 8088 ∷ 2 ∷ 8096 ∷ 1 ∷ 8104 ∷ 2 ∷ 8112 ∷ 1 ∷ 8117 ∷ 34145 ∷ 8160 ∷ 1 ∷ 8168 ∷ 0 ∷ 8173 ∷ 34188
    ∷ 8192 ∷ 11 ∷ 8204 ∷ 33889 ∷ 8208 ∷ 19 ∷ 8214 ∷ 34207 ∷ 8224 ∷ 24 ∷ 8232 ∷ 34217 ∷ 8234 ∷ 15
    ∷ 8239 ∷ 32768 ∷ 8240 ∷ 24 ∷ 8249 ∷ 34219 ∷ 8264 ∷ 24 ∷ 8270 ∷ 29 ∷ 8298 ∷ 15 ∷ 8304 ∷ 34234
    ∷ 8308 ∷ 10 ∷ 8314 ∷ 34238 ∷ 8320 ∷ 10 ∷ 8330 ∷ 34238 ∷ 8335 ∷ 29 ∷ 8352 ∷ 26 ∷ 8368 ∷ 29 ∷ 8400
    ∷ 5 ∷ 8413 ∷ 34244 ∷ 8420 ∷ 29 ∷ 8448 ∷ 34251 ∷ 8473 ∷ 0 ∷ 8478 ∷ 28 ∷ 8484 ∷ 34276 ∷ 8507 ∷ 29
    ∷ 8531 ∷ 10 ∷ 8544 ∷ 9 ∷ 8580 ∷ 29 ∷ 8592 ∷ 25 ∷ 8597 ∷ 28 ∷ 8602 ∷ 34299 ∷ 8615 ∷ 28 ∷ 8622
    ∷ 32779 ∷ 8623 ∷ 28 ∷ 8654 ∷ 34312 ∷ 8661 ∷ 28 ∷ 8692 ∷ 29 ∷ 8704 ∷ 25 ∷ 8946 ∷ 29 ∷ 8960 ∷ 28
    ∷ 8968 ∷ 34319 ∷ 8972 ∷ 28 ∷ 8992 ∷ 32786 ∷ 8994 ∷ 28 ∷ 9001 ∷ 32776 ∷ 9003 ∷ 28 ∷ 9084 ∷ 33121
    ∷ 9085 ∷ 28 ∷ 9115 ∷ 29 ∷ 9216 ∷ 28 ∷ 9255 ∷ 29 ∷ 9280 ∷ 28 ∷ 9291 ∷ 29 ∷ 9312 ∷ 10 ∷ 9372 ∷ 28
    ∷ 9450 ∷ 32819 ∷ 9451 ∷ 29 ∷ 9472 ∷ 28 ∷ 9622 ∷ 29 ∷ 9632 ∷ 28 ∷ 9655 ∷ 32779 ∷ 9656 ∷ 28 ∷ 9665
    ∷ 32779 ∷ 9666 ∷ 28 ∷ 9720 ∷ 29 ∷ 9728 ∷ 28 ∷ 9748 ∷ 29 ∷ 9753 ∷ 28 ∷ 9839 ∷ 34300 ∷ 9842 ∷ 29
    ∷ 9985 ∷ 34323 ∷ 9996 ∷ 28 ∷ 10024 ∷ 33121 ∷ 10025 ∷ 28 ∷ 10060 ∷ 34334 ∷ 10072 ∷ 28 ∷ 10079
    ∷ 33121 ∷ 10081 ∷ 28 ∷ 10088 ∷ 29 ∷ 10102 ∷ 10 ∷ 10132 ∷ 34331 ∷ 10136 ∷ 28 ∷ 10160 ∷ 33121
    ∷ 10161 ∷ 28 ∷ 10175 ∷ 29 ∷ 10240 ∷ 28 ∷ 10496 ∷ 29 ∷ 11904 ∷ 28 ∷ 11930 ∷ 33121 ∷ 11931 ∷ 28
    ∷ 12020 ∷ 29 ∷ 12032 ∷ 28 ∷ 12246 ∷ 29 ∷ 12272 ∷ 28 ∷ 12284 ∷ 34346 ∷ 12321 ∷ 9 ∷ 12330 ∷ 5
    ∷ 12336 ∷ 32781 ∷ 12337 ∷ 3 ∷ 12342 ∷ 34383 ∷ 12353 ∷ 4 ∷ 12437 ∷ 34394 ∷ 12449 ∷ 4 ∷ 12539
    ∷ 34406 ∷ 12543 ∷ 29 ∷ 12549 ∷ 4 ∷ 12589 ∷ 33150 ∷ 12593 ∷ 4 ∷ 12687 ∷ 34410 ∷ 12694 ∷ 28
    ∷ 12704 ∷ 4 ∷ 12728 ∷ 29 ∷ 12800 ∷ 28 ∷ 12829 ∷ 33150 ∷ 12832 ∷ 10 ∷ 12842 ∷ 28 ∷ 12868 ∷ 29
    ∷ 12896 ∷ 28 ∷ 12924 ∷ 33819 ∷ 12928 ∷ 10 ∷ 12938 ∷ 28 ∷ 12977 ∷ 29 ∷ 12992 ∷ 28 ∷ 13004 ∷ 33150
    ∷ 13008 ∷ 28 ∷ 13055 ∷ 33121 ∷ 13056 ∷ 28 ∷ 13175 ∷ 33150 ∷ 13179 ∷ 28 ∷ 13278 ∷ 33121 ∷ 13280
    ∷ 28 ∷ 13311 ∷ 33121 ∷ 13312 ∷ 4 ∷ 19894 ∷ 29 ∷ 19968 ∷ 4 ∷ 40870 ∷ 29 ∷ 40960 ∷ 4 ∷ 42125
    ∷ 33150 ∷ 42128 ∷ 28 ∷ 42146 ∷ 33121 ∷ 42148 ∷ 28 ∷ 42164 ∷ 33121 ∷ 42165 ∷ 28 ∷ 42177 ∷ 34417
    ∷ 42183 ∷ 29 ∷ 44032 ∷ 4 ∷ 55204 ∷ 29 ∷ 55296 ∷ 16 ∷ 57344 ∷ 17 ∷ 63744 ∷ 4 ∷ 64046 ∷ 29 ∷ 64256
    ∷ 1 ∷ 64263 ∷ 29 ∷ 64275 ∷ 1 ∷ 64280 ∷ 29 ∷ 64285 ∷ 33411 ∷ 64287 ∷ 4 ∷ 64297 ∷ 32779 ∷ 64298
    ∷ 4 ∷ 64311 ∷ 33121 ∷ 64312 ∷ 4 ∷ 64317 ∷ 34423 ∷ 64326 ∷ 4 ∷ 64434 ∷ 29 ∷ 64467 ∷ 4 ∷ 64830
    ∷ 32776 ∷ 64832 ∷ 29 ∷ 64848 ∷ 4 ∷ 64912 ∷ 33121 ∷ 64914 ∷ 4 ∷ 64968 ∷ 29 ∷ 65008 ∷ 4 ∷ 65020
    ∷ 29 ∷ 65056 ∷ 33239 ∷ 65060 ∷ 29 ∷ 65072 ∷ 34432 ∷ 65142 ∷ 4 ∷ 65277 ∷ 34502 ∷ 65296 ∷ 8
    ∷ 65306 ∷ 32784 ∷ 65313 ∷ 0 ∷ 65339 ∷ 32791 ∷ 65345 ∷ 1 ∷ 65371 ∷ 34521 ∷ 65382 ∷ 4 ∷ 65392
    ∷ 33143 ∷ 65393 ∷ 4 ∷ 65438 ∷ 33143 ∷ 65440 ∷ 4 ∷ 65471 ∷ 33150 ∷ 65474 ∷ 4 ∷ 65480 ∷ 33121
    ∷ 65482 ∷ 4 ∷ 65488 ∷ 33121 ∷ 65490 ∷ 4 ∷ 65496 ∷ 34532 ∷ 65519 ∷ 29 ∷ 65529 ∷ 34555 ∷ 65535 ∷ 0
    ∷ []

-- UC_Runs
unfoldable pub uc_runs : List ℕ
uc_runs =
    11 ∷ 24 ∷ 24 ∷ 24 ∷ 26 ∷ 24 ∷ 24 ∷ 24 ∷ 20 ∷ 21 ∷ 24 ∷ 25 ∷ 24 ∷ 19 ∷ 24 ∷ 24 ∷ 24 ∷ 24 ∷ 25
    ∷ 25 ∷ 25 ∷ 24 ∷ 24 ∷ 20 ∷ 24 ∷ 21 ∷ 27 ∷ 18 ∷ 27 ∷ 20 ∷ 25 ∷ 21 ∷ 25 ∷ 11 ∷ 24 ∷ 26 ∷ 26 ∷ 26
    ∷ 26 ∷ 28 ∷ 28 ∷ 27 ∷ 28 ∷ 1 ∷ 22 ∷ 25 ∷ 19 ∷ 28 ∷ 27 ∷ 28 ∷ 25 ∷ 10 ∷ 10 ∷ 27 ∷ 1 ∷ 28 ∷ 24
    ∷ 27 ∷ 10 ∷ 1 ∷ 23 ∷ 10 ∷ 10 ∷ 10 ∷ 24 ∷ 0 ∷ 1 ∷ 0 ∷ 1 ∷ 0 ∷ 1 ∷ 0 ∷ 1 ∷ 0 ∷ 1 ∷ 0 ∷ 1 ∷ 0 ∷ 1
    ∷ 0 ∷ 1 ∷ 0 ∷ 1 ∷ 0 ∷ 1 ∷ 0 ∷ 1 ∷ 0 ∷ 1 ∷ 0 ∷ 1 ∷ 0 ∷ 1 ∷ 0 ∷ 1 ∷ 0 ∷ 1 ∷ 0 ∷ 1 ∷ 0 ∷ 1 ∷ 0 ∷ 1
    ∷ 0 ∷ 1 ∷ 0 ∷ 1 ∷ 0 ∷ 1 ∷ 0 ∷ 1 ∷ 0 ∷ 1 ∷ 0 ∷ 1 ∷ 0 ∷ 1 ∷ 0 ∷ 1 ∷ 0 ∷ 1 ∷ 1 ∷ 0 ∷ 1 ∷ 0 ∷ 1 ∷ 0
    ∷ 1 ∷ 0 ∷ 1 ∷ 0 ∷ 1 ∷ 0 ∷ 1 ∷ 0 ∷ 1 ∷ 0 ∷ 1 ∷ 1 ∷ 0 ∷ 1 ∷ 0 ∷ 1 ∷ 0 ∷ 1 ∷ 0 ∷ 1 ∷ 0 ∷ 1 ∷ 0 ∷ 1
    ∷ 0 ∷ 1 ∷ 0 ∷ 1 ∷ 0 ∷ 1 ∷ 0 ∷ 1 ∷ 0 ∷ 1 ∷ 0 ∷ 1 ∷ 0 ∷ 1 ∷ 0 ∷ 1 ∷ 0 ∷ 1 ∷ 0 ∷ 1 ∷ 0 ∷ 1 ∷ 0 ∷ 1
    ∷ 0 ∷ 1 ∷ 0 ∷ 1 ∷ 0 ∷ 1 ∷ 0 ∷ 1 ∷ 0 ∷ 1 ∷ 0 ∷ 0 ∷ 1 ∷ 0 ∷ 1 ∷ 0 ∷ 1 ∷ 1 ∷ 1 ∷ 0 ∷ 0 ∷ 1 ∷ 0 ∷ 1
    ∷ 0 ∷ 0 ∷ 1 ∷ 0 ∷ 0 ∷ 0 ∷ 1 ∷ 1 ∷ 0 ∷ 0 ∷ 0 ∷ 0 ∷ 1 ∷ 0 ∷ 0 ∷ 1 ∷ 0 ∷ 0 ∷ 0 ∷ 1 ∷ 1 ∷ 1 ∷ 0 ∷ 0
    ∷ 1 ∷ 0 ∷ 0 ∷ 1 ∷ 0 ∷ 1 ∷ 0 ∷ 1 ∷ 0 ∷ 0 ∷ 1 ∷ 0 ∷ 1 ∷ 1 ∷ 0 ∷ 1 ∷ 0 ∷ 0 ∷ 1 ∷ 0 ∷ 0 ∷ 0 ∷ 1 ∷ 0
    ∷ 1 ∷ 0 ∷ 0 ∷ 1 ∷ 1 ∷ 4 ∷ 0 ∷ 1 ∷ 1 ∷ 1 ∷ 4 ∷ 4 ∷ 4 ∷ 4 ∷ 0 ∷ 2 ∷ 1 ∷ 0 ∷ 2 ∷ 1 ∷ 0 ∷ 2 ∷ 1 ∷ 0
    ∷ 1 ∷ 0 ∷ 1 ∷ 0 ∷ 1 ∷ 0 ∷ 1 ∷ 0 ∷ 1 ∷ 0 ∷ 1 ∷ 0 ∷ 1 ∷ 0 ∷ 1 ∷ 1 ∷ 0 ∷ 1 ∷ 0 ∷ 1 ∷ 0 ∷ 1 ∷ 0 ∷ 1
    ∷ 0 ∷ 1 ∷ 0 ∷ 1 ∷ 0 ∷ 1 ∷ 0 ∷ 1 ∷ 0 ∷ 1 ∷ 1 ∷ 0 ∷ 2 ∷ 1 ∷ 0 ∷ 1 ∷ 0 ∷ 0 ∷ 0 ∷ 1 ∷ 0 ∷ 1 ∷ 0 ∷ 1
    ∷ 0 ∷ 1 ∷ 0 ∷ 1 ∷ 0 ∷ 1 ∷ 0 ∷ 1 ∷ 0 ∷ 1 ∷ 0 ∷ 1 ∷ 0 ∷ 1 ∷ 0 ∷ 1 ∷ 0 ∷ 1 ∷ 0 ∷ 1 ∷ 0 ∷ 1 ∷ 0 ∷ 1
    ∷ 0 ∷ 1 ∷ 0 ∷ 1 ∷ 0 ∷ 1 ∷ 0 ∷ 1 ∷ 0 ∷ 1 ∷ 29 ∷ 29 ∷ 0 ∷ 1 ∷ 0 ∷ 1 ∷ 0 ∷ 1 ∷ 0 ∷ 1 ∷ 0 ∷ 1 ∷ 0
    ∷ 1 ∷ 0 ∷ 1 ∷ 0 ∷ 1 ∷ 0 ∷ 1 ∷ 27 ∷ 27 ∷ 3 ∷ 3 ∷ 5 ∷ 5 ∷ 5 ∷ 27 ∷ 27 ∷ 29 ∷ 29 ∷ 29 ∷ 29 ∷ 3 ∷ 29
    ∷ 29 ∷ 29 ∷ 24 ∷ 27 ∷ 27 ∷ 0 ∷ 24 ∷ 0 ∷ 0 ∷ 0 ∷ 29 ∷ 0 ∷ 29 ∷ 0 ∷ 0 ∷ 1 ∷ 29 ∷ 1 ∷ 1 ∷ 0 ∷ 0 ∷ 0
    ∷ 1 ∷ 1 ∷ 1 ∷ 29 ∷ 29 ∷ 0 ∷ 1 ∷ 0 ∷ 1 ∷ 0 ∷ 1 ∷ 0 ∷ 1 ∷ 0 ∷ 1 ∷ 0 ∷ 1 ∷ 0 ∷ 1 ∷ 0 ∷ 1 ∷ 0 ∷ 1
    ∷ 0 ∷ 1 ∷ 0 ∷ 0 ∷ 1 ∷ 0 ∷ 1 ∷ 0 ∷ 1 ∷ 0 ∷ 1 ∷ 0 ∷ 1 ∷ 0 ∷ 1 ∷ 0 ∷ 1 ∷ 0 ∷ 1 ∷ 0 ∷ 1 ∷ 0 ∷ 1 ∷ 0
    ∷ 1 ∷ 0 ∷ 1 ∷ 0 ∷ 1 ∷ 0 ∷ 1 ∷ 0 ∷ 1 ∷ 0 ∷ 1 ∷ 0 ∷ 1 ∷ 28 ∷ 5 ∷ 5 ∷ 5 ∷ 5 ∷ 29 ∷ 7 ∷ 7 ∷ 29 ∷ 29
    ∷ 0 ∷ 1 ∷ 0 ∷ 1 ∷ 0 ∷ 1 ∷ 0 ∷ 1 ∷ 0 ∷ 1 ∷ 0 ∷ 1 ∷ 0 ∷ 1 ∷ 0 ∷ 1 ∷ 0 ∷ 1 ∷ 0 ∷ 1 ∷ 0 ∷ 1 ∷ 0 ∷ 1
    ∷ 0 ∷ 1 ∷ 0 ∷ 1 ∷ 0 ∷ 1 ∷ 0 ∷ 1 ∷ 0 ∷ 1 ∷ 0 ∷ 1 ∷ 0 ∷ 1 ∷ 0 ∷ 1 ∷ 0 ∷ 1 ∷ 0 ∷ 1 ∷ 0 ∷ 1 ∷ 0 ∷ 1
    ∷ 0 ∷ 1 ∷ 0 ∷ 1 ∷ 0 ∷ 0 ∷ 1 ∷ 0 ∷ 1 ∷ 29 ∷ 29 ∷ 0 ∷ 1 ∷ 29 ∷ 29 ∷ 0 ∷ 1 ∷ 29 ∷ 29 ∷ 29 ∷ 0 ∷ 1
    ∷ 0 ∷ 1 ∷ 0 ∷ 1 ∷ 0 ∷ 1 ∷ 0 ∷ 1 ∷ 0 ∷ 1 ∷ 0 ∷ 1 ∷ 0 ∷ 1 ∷ 0 ∷ 1 ∷ 0 ∷ 1 ∷ 0 ∷ 1 ∷ 0 ∷ 1 ∷ 0 ∷ 1
    ∷ 0 ∷ 1 ∷ 0 ∷ 1 ∷ 0 ∷ 1 ∷ 0 ∷ 1 ∷ 0 ∷ 1 ∷ 0 ∷ 1 ∷ 29 ∷ 29 ∷ 0 ∷ 1 ∷ 29 ∷ 24 ∷ 19 ∷ 29 ∷ 5 ∷ 5
    ∷ 5 ∷ 24 ∷ 5 ∷ 24 ∷ 5 ∷ 5 ∷ 24 ∷ 5 ∷ 4 ∷ 4 ∷ 4 ∷ 24 ∷ 24 ∷ 24 ∷ 29 ∷ 29 ∷ 29 ∷ 24 ∷ 29 ∷ 24 ∷ 24
    ∷ 24 ∷ 24 ∷ 29 ∷ 29 ∷ 5 ∷ 24 ∷ 4 ∷ 3 ∷ 3 ∷ 5 ∷ 5 ∷ 28 ∷ 5 ∷ 5 ∷ 5 ∷ 5 ∷ 29 ∷ 29 ∷ 4 ∷ 4 ∷ 4 ∷ 28
    ∷ 28 ∷ 29 ∷ 29 ∷ 15 ∷ 4 ∷ 5 ∷ 5 ∷ 5 ∷ 6 ∷ 29 ∷ 29 ∷ 29 ∷ 5 ∷ 4 ∷ 6 ∷ 6 ∷ 6 ∷ 6 ∷ 6 ∷ 6 ∷ 6 ∷ 5
    ∷ 29 ∷ 29 ∷ 4 ∷ 5 ∷ 5 ∷ 5 ∷ 5 ∷ 29 ∷ 29 ∷ 29 ∷ 5 ∷ 5 ∷ 24 ∷ 24 ∷ 5 ∷ 6 ∷ 6 ∷ 29 ∷ 29 ∷ 29 ∷ 4
    ∷ 4 ∷ 29 ∷ 29 ∷ 29 ∷ 4 ∷ 29 ∷ 29 ∷ 29 ∷ 4 ∷ 4 ∷ 4 ∷ 4 ∷ 29 ∷ 29 ∷ 5 ∷ 29 ∷ 6 ∷ 6 ∷ 6 ∷ 5 ∷ 5 ∷ 5
    ∷ 5 ∷ 29 ∷ 29 ∷ 6 ∷ 6 ∷ 29 ∷ 29 ∷ 6 ∷ 6 ∷ 5 ∷ 6 ∷ 29 ∷ 29 ∷ 29 ∷ 29 ∷ 4 ∷ 4 ∷ 29 ∷ 4 ∷ 4 ∷ 4 ∷ 5
    ∷ 5 ∷ 29 ∷ 29 ∷ 4 ∷ 4 ∷ 26 ∷ 26 ∷ 29 ∷ 29 ∷ 29 ∷ 29 ∷ 4 ∷ 4 ∷ 29 ∷ 29 ∷ 29 ∷ 4 ∷ 4 ∷ 29 ∷ 4 ∷ 4
    ∷ 29 ∷ 4 ∷ 4 ∷ 29 ∷ 29 ∷ 5 ∷ 29 ∷ 6 ∷ 6 ∷ 6 ∷ 5 ∷ 5 ∷ 29 ∷ 29 ∷ 29 ∷ 29 ∷ 5 ∷ 5 ∷ 29 ∷ 29 ∷ 5
    ∷ 5 ∷ 5 ∷ 4 ∷ 4 ∷ 4 ∷ 4 ∷ 29 ∷ 4 ∷ 29 ∷ 4 ∷ 29 ∷ 4 ∷ 4 ∷ 4 ∷ 29 ∷ 29 ∷ 5 ∷ 5 ∷ 6 ∷ 29 ∷ 6 ∷ 6
    ∷ 5 ∷ 29 ∷ 29 ∷ 4 ∷ 29 ∷ 4 ∷ 4 ∷ 29 ∷ 29 ∷ 4 ∷ 4 ∷ 4 ∷ 4 ∷ 29 ∷ 29 ∷ 5 ∷ 4 ∷ 6 ∷ 5 ∷ 6 ∷ 5 ∷ 5
    ∷ 5 ∷ 29 ∷ 29 ∷ 29 ∷ 6 ∷ 6 ∷ 29 ∷ 29 ∷ 6 ∷ 6 ∷ 5 ∷ 5 ∷ 6 ∷ 29 ∷ 29 ∷ 29 ∷ 29 ∷ 4 ∷ 4 ∷ 29 ∷ 4
    ∷ 4 ∷ 4 ∷ 29 ∷ 29 ∷ 29 ∷ 29 ∷ 29 ∷ 29 ∷ 29 ∷ 4 ∷ 4 ∷ 4 ∷ 29 ∷ 4 ∷ 4 ∷ 4 ∷ 4 ∷ 29 ∷ 29 ∷ 29 ∷ 4
    ∷ 4 ∷ 29 ∷ 4 ∷ 29 ∷ 4 ∷ 4 ∷ 29 ∷ 29 ∷ 29 ∷ 4 ∷ 4 ∷ 29 ∷ 29 ∷ 29 ∷ 4 ∷ 4 ∷ 4 ∷ 29 ∷ 29 ∷ 29 ∷ 29
    ∷ 4 ∷ 4 ∷ 4 ∷ 29 ∷ 29 ∷ 29 ∷ 29 ∷ 6 ∷ 6 ∷ 5 ∷ 6 ∷ 6 ∷ 29 ∷ 29 ∷ 29 ∷ 6 ∷ 6 ∷ 6 ∷ 29 ∷ 6 ∷ 6 ∷ 6
    ∷ 5 ∷ 29 ∷ 29 ∷ 29 ∷ 29 ∷ 5 ∷ 5 ∷ 5 ∷ 6 ∷ 6 ∷ 6 ∷ 6 ∷ 29 ∷ 5 ∷ 5 ∷ 5 ∷ 29 ∷ 5 ∷ 5 ∷ 5 ∷ 5 ∷ 29
    ∷ 29 ∷ 29 ∷ 29 ∷ 6 ∷ 5 ∷ 29 ∷ 5 ∷ 6 ∷ 6 ∷ 29 ∷ 6 ∷ 6 ∷ 5 ∷ 5 ∷ 4 ∷ 29 ∷ 4 ∷ 4 ∷ 29 ∷ 29 ∷ 29
    ∷ 29 ∷ 29 ∷ 29 ∷ 29 ∷ 29 ∷ 6 ∷ 6 ∷ 6 ∷ 5 ∷ 5 ∷ 5 ∷ 29 ∷ 29 ∷ 6 ∷ 6 ∷ 6 ∷ 29 ∷ 6 ∷ 6 ∷ 6 ∷ 5 ∷ 29
    ∷ 29 ∷ 29 ∷ 5 ∷ 29 ∷ 29 ∷ 29 ∷ 29 ∷ 6 ∷ 6 ∷ 6 ∷ 5 ∷ 5 ∷ 5 ∷ 29 ∷ 5 ∷ 29 ∷ 6 ∷ 6 ∷ 24 ∷ 29 ∷ 29
    ∷ 29 ∷ 29 ∷ 26 ∷ 4 ∷ 4 ∷ 29 ∷ 4 ∷ 29 ∷ 29 ∷ 4 ∷ 4 ∷ 29 ∷ 4 ∷ 29 ∷ 29 ∷ 4 ∷ 29 ∷ 4 ∷ 4 ∷ 4 ∷ 29
    ∷ 4 ∷ 29 ∷ 4 ∷ 29 ∷ 29 ∷ 4 ∷ 4 ∷ 29 ∷ 4 ∷ 4 ∷ 4 ∷ 4 ∷ 5 ∷ 4 ∷ 4 ∷ 29 ∷ 5 ∷ 5 ∷ 4 ∷ 29 ∷ 29 ∷ 4
    ∷ 28 ∷ 28 ∷ 28 ∷ 28 ∷ 5 ∷ 28 ∷ 5 ∷ 28 ∷ 5 ∷ 20 ∷ 21 ∷ 20 ∷ 21 ∷ 6 ∷ 6 ∷ 24 ∷ 5 ∷ 5 ∷ 4 ∷ 4 ∷ 4
    ∷ 4 ∷ 29 ∷ 29 ∷ 29 ∷ 29 ∷ 29 ∷ 29 ∷ 28 ∷ 29 ∷ 4 ∷ 4 ∷ 29 ∷ 6 ∷ 5 ∷ 5 ∷ 5 ∷ 5 ∷ 6 ∷ 5 ∷ 29 ∷ 29
    ∷ 29 ∷ 5 ∷ 5 ∷ 6 ∷ 5 ∷ 29 ∷ 29 ∷ 29 ∷ 29 ∷ 24 ∷ 29 ∷ 29 ∷ 29 ∷ 29 ∷ 29 ∷ 4 ∷ 29 ∷ 4 ∷ 4 ∷ 4 ∷ 4
    ∷ 29 ∷ 29 ∷ 29 ∷ 4 ∷ 29 ∷ 4 ∷ 4 ∷ 4 ∷ 4 ∷ 29 ∷ 29 ∷ 20 ∷ 21 ∷ 29 ∷ 29 ∷ 29 ∷ 24 ∷ 24 ∷ 24 ∷ 10
    ∷ 10 ∷ 10 ∷ 26 ∷ 24 ∷ 29 ∷ 29 ∷ 29 ∷ 19 ∷ 24 ∷ 24 ∷ 24 ∷ 24 ∷ 15 ∷ 15 ∷ 15 ∷ 15 ∷ 29 ∷ 0 ∷ 1 ∷ 0
    ∷ 1 ∷ 0 ∷ 1 ∷ 0 ∷ 1 ∷ 0 ∷ 1 ∷ 0 ∷ 1 ∷ 0 ∷ 1 ∷ 0 ∷ 1 ∷ 0 ∷ 1 ∷ 0 ∷ 1 ∷ 0 ∷ 1 ∷ 0 ∷ 1 ∷ 0 ∷ 1 ∷ 0
    ∷ 1 ∷ 0 ∷ 1 ∷ 0 ∷ 1 ∷ 0 ∷ 1 ∷ 0 ∷ 1 ∷ 0 ∷ 1 ∷ 0 ∷ 1 ∷ 0 ∷ 1 ∷ 0 ∷ 1 ∷ 0 ∷ 1 ∷ 0 ∷ 1 ∷ 0 ∷ 1 ∷ 0
    ∷ 1 ∷ 0 ∷ 1 ∷ 0 ∷ 1 ∷ 0 ∷ 1 ∷ 0 ∷ 1 ∷ 0 ∷ 1 ∷ 0 ∷ 1 ∷ 0 ∷ 1 ∷ 0 ∷ 1 ∷ 0 ∷ 1 ∷ 0 ∷ 1 ∷ 0 ∷ 1 ∷ 0
    ∷ 1 ∷ 0 ∷ 1 ∷ 0 ∷ 1 ∷ 0 ∷ 1 ∷ 0 ∷ 1 ∷ 0 ∷ 1 ∷ 0 ∷ 1 ∷ 0 ∷ 1 ∷ 0 ∷ 1 ∷ 0 ∷ 1 ∷ 0 ∷ 1 ∷ 0 ∷ 1 ∷ 0
    ∷ 1 ∷ 0 ∷ 1 ∷ 0 ∷ 1 ∷ 0 ∷ 1 ∷ 0 ∷ 1 ∷ 0 ∷ 1 ∷ 0 ∷ 1 ∷ 0 ∷ 1 ∷ 0 ∷ 1 ∷ 0 ∷ 1 ∷ 0 ∷ 1 ∷ 0 ∷ 1 ∷ 0
    ∷ 1 ∷ 0 ∷ 1 ∷ 0 ∷ 1 ∷ 0 ∷ 1 ∷ 0 ∷ 1 ∷ 0 ∷ 1 ∷ 0 ∷ 1 ∷ 0 ∷ 1 ∷ 0 ∷ 1 ∷ 0 ∷ 1 ∷ 0 ∷ 1 ∷ 0 ∷ 1 ∷ 0
    ∷ 1 ∷ 0 ∷ 29 ∷ 29 ∷ 29 ∷ 29 ∷ 0 ∷ 1 ∷ 0 ∷ 1 ∷ 0 ∷ 1 ∷ 0 ∷ 1 ∷ 0 ∷ 1 ∷ 0 ∷ 1 ∷ 0 ∷ 1 ∷ 0 ∷ 1 ∷ 0
    ∷ 1 ∷ 0 ∷ 1 ∷ 0 ∷ 1 ∷ 0 ∷ 1 ∷ 0 ∷ 1 ∷ 0 ∷ 1 ∷ 0 ∷ 1 ∷ 0 ∷ 1 ∷ 0 ∷ 1 ∷ 0 ∷ 1 ∷ 0 ∷ 1 ∷ 0 ∷ 1 ∷ 0
    ∷ 1 ∷ 0 ∷ 1 ∷ 0 ∷ 1 ∷ 0 ∷ 1 ∷ 0 ∷ 1 ∷ 0 ∷ 1 ∷ 0 ∷ 1 ∷ 0 ∷ 1 ∷ 0 ∷ 1 ∷ 0 ∷ 1 ∷ 0 ∷ 1 ∷ 0 ∷ 1 ∷ 0
    ∷ 1 ∷ 0 ∷ 1 ∷ 0 ∷ 1 ∷ 0 ∷ 1 ∷ 0 ∷ 1 ∷ 0 ∷ 1 ∷ 0 ∷ 1 ∷ 0 ∷ 1 ∷ 0 ∷ 1 ∷ 0 ∷ 1 ∷ 0 ∷ 1 ∷ 0 ∷ 1 ∷ 0
    ∷ 1 ∷ 29 ∷ 0 ∷ 29 ∷ 0 ∷ 29 ∷ 0 ∷ 29 ∷ 0 ∷ 29 ∷ 1 ∷ 1 ∷ 0 ∷ 0 ∷ 0 ∷ 0 ∷ 2 ∷ 27 ∷ 1 ∷ 27 ∷ 27 ∷ 27
    ∷ 1 ∷ 1 ∷ 1 ∷ 29 ∷ 1 ∷ 1 ∷ 0 ∷ 0 ∷ 0 ∷ 0 ∷ 2 ∷ 27 ∷ 27 ∷ 27 ∷ 1 ∷ 1 ∷ 1 ∷ 1 ∷ 29 ∷ 29 ∷ 1 ∷ 1
    ∷ 0 ∷ 0 ∷ 0 ∷ 0 ∷ 29 ∷ 27 ∷ 27 ∷ 27 ∷ 27 ∷ 27 ∷ 27 ∷ 29 ∷ 29 ∷ 1 ∷ 1 ∷ 1 ∷ 29 ∷ 1 ∷ 1 ∷ 0 ∷ 0
    ∷ 0 ∷ 0 ∷ 2 ∷ 27 ∷ 27 ∷ 29 ∷ 24 ∷ 24 ∷ 22 ∷ 23 ∷ 20 ∷ 22 ∷ 22 ∷ 23 ∷ 20 ∷ 22 ∷ 12 ∷ 13 ∷ 22 ∷ 23
    ∷ 24 ∷ 24 ∷ 24 ∷ 24 ∷ 18 ∷ 18 ∷ 24 ∷ 24 ∷ 24 ∷ 25 ∷ 20 ∷ 21 ∷ 29 ∷ 10 ∷ 29 ∷ 29 ∷ 29 ∷ 25 ∷ 25
    ∷ 25 ∷ 20 ∷ 21 ∷ 1 ∷ 7 ∷ 7 ∷ 7 ∷ 7 ∷ 5 ∷ 7 ∷ 7 ∷ 28 ∷ 28 ∷ 0 ∷ 28 ∷ 28 ∷ 28 ∷ 28 ∷ 0 ∷ 28 ∷ 28
    ∷ 1 ∷ 0 ∷ 0 ∷ 0 ∷ 1 ∷ 1 ∷ 0 ∷ 0 ∷ 0 ∷ 1 ∷ 28 ∷ 0 ∷ 28 ∷ 28 ∷ 28 ∷ 0 ∷ 28 ∷ 0 ∷ 28 ∷ 0 ∷ 28 ∷ 0
    ∷ 0 ∷ 0 ∷ 0 ∷ 28 ∷ 1 ∷ 0 ∷ 0 ∷ 28 ∷ 0 ∷ 1 ∷ 4 ∷ 4 ∷ 4 ∷ 4 ∷ 1 ∷ 28 ∷ 25 ∷ 25 ∷ 28 ∷ 28 ∷ 28 ∷ 28
    ∷ 25 ∷ 28 ∷ 28 ∷ 25 ∷ 28 ∷ 28 ∷ 25 ∷ 25 ∷ 25 ∷ 28 ∷ 28 ∷ 25 ∷ 28 ∷ 25 ∷ 25 ∷ 25 ∷ 25 ∷ 25 ∷ 28
    ∷ 28 ∷ 28 ∷ 28 ∷ 29 ∷ 28 ∷ 28 ∷ 28 ∷ 28 ∷ 29 ∷ 29 ∷ 29 ∷ 28 ∷ 29 ∷ 28 ∷ 28 ∷ 28 ∷ 28 ∷ 29 ∷ 29
    ∷ 29 ∷ 28 ∷ 29 ∷ 29 ∷ 29 ∷ 29 ∷ 29 ∷ 11 ∷ 24 ∷ 24 ∷ 24 ∷ 28 ∷ 3 ∷ 4 ∷ 9 ∷ 20 ∷ 21 ∷ 20 ∷ 21 ∷ 20
    ∷ 21 ∷ 20 ∷ 21 ∷ 20 ∷ 21 ∷ 28 ∷ 28 ∷ 20 ∷ 21 ∷ 20 ∷ 21 ∷ 20 ∷ 21 ∷ 20 ∷ 21 ∷ 19 ∷ 20 ∷ 21 ∷ 21
    ∷ 28 ∷ 28 ∷ 28 ∷ 9 ∷ 9 ∷ 9 ∷ 29 ∷ 29 ∷ 29 ∷ 28 ∷ 28 ∷ 29 ∷ 29 ∷ 29 ∷ 29 ∷ 29 ∷ 5 ∷ 5 ∷ 27 ∷ 27
    ∷ 3 ∷ 3 ∷ 29 ∷ 29 ∷ 18 ∷ 3 ∷ 3 ∷ 3 ∷ 29 ∷ 28 ∷ 28 ∷ 10 ∷ 10 ∷ 10 ∷ 10 ∷ 29 ∷ 28 ∷ 28 ∷ 28 ∷ 29
    ∷ 28 ∷ 29 ∷ 4 ∷ 29 ∷ 4 ∷ 4 ∷ 29 ∷ 4 ∷ 4 ∷ 29 ∷ 24 ∷ 19 ∷ 19 ∷ 18 ∷ 18 ∷ 20 ∷ 21 ∷ 20 ∷ 21 ∷ 20
    ∷ 21 ∷ 20 ∷ 21 ∷ 20 ∷ 21 ∷ 20 ∷ 21 ∷ 20 ∷ 21 ∷ 20 ∷ 21 ∷ 29 ∷ 29 ∷ 29 ∷ 29 ∷ 24 ∷ 24 ∷ 24 ∷ 24
    ∷ 18 ∷ 18 ∷ 18 ∷ 24 ∷ 24 ∷ 24 ∷ 29 ∷ 24 ∷ 24 ∷ 24 ∷ 24 ∷ 19 ∷ 20 ∷ 21 ∷ 20 ∷ 21 ∷ 20 ∷ 21 ∷ 24
    ∷ 24 ∷ 24 ∷ 25 ∷ 19 ∷ 25 ∷ 25 ∷ 25 ∷ 29 ∷ 24 ∷ 26 ∷ 24 ∷ 24 ∷ 29 ∷ 29 ∷ 29 ∷ 29 ∷ 4 ∷ 4 ∷ 4 ∷ 29
    ∷ 4 ∷ 29 ∷ 29 ∷ 29 ∷ 15 ∷ 29 ∷ 24 ∷ 24 ∷ 24 ∷ 26 ∷ 24 ∷ 24 ∷ 24 ∷ 20 ∷ 21 ∷ 24 ∷ 25 ∷ 24 ∷ 19
    ∷ 24 ∷ 24 ∷ 20 ∷ 25 ∷ 21 ∷ 25 ∷ 29 ∷ 29 ∷ 24 ∷ 20 ∷ 21 ∷ 24 ∷ 18 ∷ 29 ∷ 29 ∷ 4 ∷ 4 ∷ 4 ∷ 29 ∷ 29
    ∷ 29 ∷ 26 ∷ 26 ∷ 25 ∷ 27 ∷ 28 ∷ 26 ∷ 26 ∷ 29 ∷ 28 ∷ 25 ∷ 25 ∷ 25 ∷ 25 ∷ 28 ∷ 28 ∷ 15 ∷ 15 ∷ 15
    ∷ 28 ∷ 28 ∷ 29 ∷ 29 ∷ []
